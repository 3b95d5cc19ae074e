-- ===== src/Propagation/WaveTests.antt =====
-- Runs of the planner and the emitter of fs_core/propagation.py.
use clearfeature.Prelude.{
  ◌≡◌, ◌↔◌, refl, none, some, List, [], ◌∷◌, In, IsUnique, not-In, contains, lookup, insert,
  string_key, ok,
}
use clearfeature.Domain.{aware, dict_of}
use clearfeature.Domain.KeyCodec.{encode_entity_key}
use clearfeature.Registry.Validator.{features_by_name}
use clearfeature.Events.Updated.{FeatureUpdated, post_init, checked}
use clearfeature.Propagation.{RecomputeCandidate, encoded}
use clearfeature.Propagation.Wave.{
  Announcement, find_view, reactive_dependents, build_feature_updated_events,
  has_reactive_dependents, update_of, feature_update_messages, candidate_of, candidates_of,
  sort_candidates, plan_recompute_wave,
}
use clearfeature.Propagation.Planned.{IsDue, plan_recompute_wave-IsDue}
use clearfeature.Samples.{income_at, risk_view, sample_registry, ratio}

abbrev announcement : Announcement
announcement = record {
  entity_type = "user";
  source = "batch_worker";
  run_id = none;
  job_id = some "job_1";
  manifest_id = none;
  occurred_at = aware 9;
}

abbrev event : FeatureUpdated
event = record {
  update_id = "u";
  entity = record { entity_type = "user"; entity_key = ("user_id", "7") ∷ [] };
  view = "risk";
  view_version = 2;
  feature_name = "income";
  feature_version = 1;
  data_ts = aware 3;
  calc_ts = aware 4;
  source = "batch_worker";
  occurred_at = aware 9;
  max_input_data_ts = none;
  input_fingerprint = some "f";
  value_hash = none;
  run_id = none;
  job_id = some "job_1";
  manifest_id = none;
  event_type = "feature_updated";
  event_version = 1;
}

-- The ratio has a reactive edge to the income, and nothing has one to the ratio.
announced :
    build_feature_updated_events risk_view announcement
      (λ n. "u")
      0
      (income_at 3 4 (some "f")
        ∷ record (income_at 3 4 none) { ref = record { name = "ratio"; version = 1 } }
        ∷ [])
    ≡ ok (event ∷ [])
unfolding build_feature_updated_events has_reactive_dependents reactive_dependents update_of checked
    post_init contains lookup insert dict_of
announced = refl

keyed : feature_update_messages (event ∷ []) ≡ ok (("user_id=7", event) ∷ [])
unfolding feature_update_messages encoded encode_entity_key
keyed = refl

planned : plan_recompute_wave sample_registry event ≡ ok (candidate_of event "ratio" ratio ∷ [])
unfolding plan_recompute_wave find_view reactive_dependents candidates_of sort_candidates
    features_by_name lookup insert
planned = refl

-- The edge is pinned to the first version.
other_version : plan_recompute_wave sample_registry (record event { feature_version = 2 }) ≡ ok []
unfolding plan_recompute_wave find_view reactive_dependents candidates_of sort_candidates
    features_by_name lookup insert
other_version = refl

found : find_view "risk" 2 sample_registry.feature_views ≡ some risk_view
unfolding find_view
found = refl

distinct : IsUnique ("ratio" ∷ "income" ∷ [])
unfolding contains
distinct = (not-In ("income" ∷ []) "ratio" refl, (λ i. elim i [ ], tt))

plan_recompute_wave-IsDue_example :
    (candidates : List RecomputeCandidate) × (plan_recompute_wave sample_registry event
      ≡ ok candidates)
    × ((c : RecomputeCandidate) → In c candidates ↔ IsDue risk_view event c)
plan_recompute_wave-IsDue_example =
    plan_recompute_wave-IsDue risk_view event distinct sample_registry found
