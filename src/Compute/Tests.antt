-- ===== src/Compute/Tests.antt =====
-- Runs of fs_core/compute/engine.py on the sample view.
use clearfeature.Prelude.{
  ℕ, ◌+◌, false, ◌≡◌, refl, none, some, [], ◌∷◌, string_key, lookup, insert, ok, err, Avoids,
}
use clearfeature.Domain.{FeatureResult, source_provided, encode_ref}
use clearfeature.Registry.Validator.{features_by_name}
use clearfeature.Registry.{FeatureViewDef, Registry}
use clearfeature.Compute.Context.{
  out_of_fuel, dependency_cycle, no_inputs, Udf, Context, FeatureComputation, okay, fresh_context,
}
use clearfeature.Compute.Results.{StandFor, IsTraced, in_view, compute-IsTraced}
use clearfeature.Compute.Resolve.{Env, find_view_in, compute}
use clearfeature.Compute.Ends.{compute-Ends}
use clearfeature.Samples.{user, sample_registry, risk_view, income, feature_of, edge_to}

-- `income` is the payload, `ratio` twice the income.
abbrev income_udf : Udf ℕ ℕ
income_udf sources deps = elim (lookup "bureau" sources) [ none ↦ err "no bureau" | some n ↦ ok n ]

abbrev ratio_udf : Udf ℕ ℕ
ratio_udf sources deps = elim (lookup "income" deps) [
  | none ↦ err "no income"
  | some n ↦ ok (n + n)
]

abbrev env : Env ℕ ℕ
env = record {
  by_name = [];
  stamps =
      (
        "bureau",
        record {
          report_ts = 100;
          content_hash = "c";
          available_at = some 110;
          availability_source = some source_provided;
        },
      )
      ∷ [];
  calc_ts = 120;
  loader = λ name. ok 7;
  udfs = ("income", income_udf) ∷ ("ratio", ratio_udf) ∷ [];
  hash_value = λ v. ok "h";
  fingerprint = λ inputs. "f";
}

abbrev computation : ℕ → FeatureComputation ℕ
computation value = record {
  value = value;
  data_ts = 100;
  max_input_data_ts = 100;
  value_hash = "h";
  input_fingerprint = "f";
  status = okay;
  available_at = some 110;
  availability_source = some source_provided;
}

abbrev result : FeatureResult ℕ
result = record {
  ref = record { name = "ratio"; version = 1 };
  entity = user;
  value = 14;
  data_ts = 100;
  calc_ts = 120;
  max_input_data_ts = some 100;
  input_fingerprint = some "f";
  value_hash = some "h";
  available_at = some 110;
  availability_source = some source_provided;
  model_uri = none;
  model_digest = none;
  model_output_name = none;
  bundle_digest = none;
}

abbrev after : Context ℕ ℕ
after = record {
  sources = ("bureau", 7) ∷ [];
  features = ("income", computation 7) ∷ ("ratio", computation 14) ∷ [];
  statuses = ("income", okay) ∷ ("ratio", okay) ∷ [];
}

computed :
    compute sample_registry env "risk" 2 user ("ratio" ∷ []) fresh_context
    ≡ ok (("ratio", result) ∷ [], after)
unfolding compute features_by_name encode_ref lookup insert
computed = refl

compute-IsTraced_example :
    (v : FeatureViewDef) × (find_view_in "risk" 2 sample_registry.feature_views ≡ ok v)
    × IsTraced (in_view env v) after
    × StandFor (in_view env v) user after (("ratio", result) ∷ [])
compute-IsTraced_example =
    compute-IsTraced sample_registry env "risk" 2 user ("ratio" ∷ []) (("ratio", result) ∷ []) after
      computed

abbrev looping : Registry
looping = record sample_registry {
  feature_views =
      record risk_view {
        features = feature_of "a" [] (edge_to "b" ∷ []) ∷ feature_of "b" [] (edge_to "a" ∷ []) ∷ [];
      }
      ∷ [];
}

cycle_raises :
    compute looping env "risk" 2 user ("a" ∷ []) fresh_context
    ≡ err (dependency_cycle ("a" ∷ "b" ∷ "a" ∷ []))
unfolding compute features_by_name
cycle_raises = refl

compute-Ends_example :
    Avoids out_of_fuel (compute looping env "risk" 2 user ("a" ∷ []) fresh_context)
compute-Ends_example = compute-Ends looping env "risk" 2 user ("a" ∷ []) fresh_context

-- An optional dependency that is skipped: `min([])` raises, where the feature might be degraded.
abbrev lonely : Registry
lonely = record sample_registry {
  feature_views =
      record risk_view {
        features =
            feature_of "top" [] (record (edge_to "mid") { required = false } ∷ [])
            ∷ feature_of "mid" []
                (record (edge_to "income") { max_input_age_seconds = some 0 } ∷ [])
            ∷ income
            ∷ [];
      }
      ∷ [];
}

min_of_nothing :
    compute lonely
      (record env { udfs = ("income", income_udf) ∷ ("top", λ s d. ok 1) ∷ [] })
      "risk"
      2
      user
      ("top" ∷ [])
      fresh_context
    ≡ err no_inputs
unfolding compute features_by_name encode_ref lookup insert
min_of_nothing = refl
