-- ===== src/Dedup/Tests.antt =====
-- Runs of fs_core/dedup.py on small inputs, with texts as values.
use clearfeature.Prelude.{ℕ, String, ◌≡◌, refl, false, none, some, List, [], ◌∷◌, str_eq, eq_iff}
use clearfeature.Domain.{FeatureResult, source_provided}
use clearfeature.Offline.{append_many}
use clearfeature.Dedup.{Values, partition_new_results}
use clearfeature.Dedup.Rerun.{partition_new_results_rerun}
use clearfeature.Samples.{user}

abbrev texts : Values String
texts = record { eq = str_eq; token = λ s. s }

abbrev grade : String → ℕ → ℕ → FeatureResult String
grade value data_ts available_at = record {
  ref = record { name = "grade"; version = 1 };
  entity = user;
  value = value;
  data_ts = data_ts;
  calc_ts = 9;
  max_input_data_ts = none;
  input_fingerprint = some "f";
  value_hash = none;
  available_at = some available_at;
  availability_source = some source_provided;
  model_uri = none;
  model_digest = none;
  model_output_name = none;
  bundle_digest = none;
}

abbrev run : List (FeatureResult String)
run = grade "a" 1 2 ∷ grade "a" 1 2 ∷ grade "b" 1 2 ∷ grade "a" 1 3 ∷ []

-- The second is a duplicate of the first; a correction of the value or of the availability is kept.
first_run :
    partition_new_results texts [] "risk" 2 run
    ≡ (grade "a" 1 2 ∷ grade "b" 1 2 ∷ grade "a" 1 3 ∷ [], 1)
unfolding partition_new_results
first_run = refl

partition_new_results_rerun_example :
    partition_new_results texts
      (append_many "risk" 2 (partition_new_results texts [] "risk" 2 run).0 [])
      "risk"
      2
      run
    ≡ ([], 4)
partition_new_results_rerun_example =
    partition_new_results_rerun texts "risk" 2 [] run
      (λ q r _ _ same. (eq_iff q.value r.value).1 same)

-- A value that is not equal to itself, as NaN, is appended again.
nan_again :
    (partition_new_results
      (record texts { eq = λ a b. false })
      (append_many "risk" 2 (grade "NaN" 1 2 ∷ []) [])
      "risk"
      2
      (grade "NaN" 1 2 ∷ []))
    ≡ (grade "NaN" 1 2 ∷ [], 0)
unfolding partition_new_results append_many
nan_again = refl
