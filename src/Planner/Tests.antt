-- ===== src/Planner/Tests.antt =====
-- Runs of fs_core/planner.py, and its theorems at a small view.
use clearfeature.Prelude.{◌≡◌, refl, true, false, [], ◌∷◌, Avoids, ok, err}
use clearfeature.Registry.{shadow, FeatureViewDef}
use clearfeature.Registry.Validator.{features_by_name}
use clearfeature.Planner.{is_shadow, unknown_group, out_of_fuel, FeaturePlan, plan_features}
use clearfeature.Planner.Planned.{Planned, plan_features-Planned}
use clearfeature.Planner.Fuel.{plan_features-Ends}
use clearfeature.Samples.{risk_view, ratio}

abbrev plan : FeaturePlan
plan = record {
  view = "risk";
  view_version = 2;
  requested_outputs =
      record { name = "ratio"; version = 1 } ∷ record { name = "income"; version = 1 } ∷ [];
  compute_features = "ratio" ∷ "income" ∷ [];
  expanded_groups = ("all", "income" ∷ "ratio" ∷ []) ∷ [];
  shadow_features = [];
}

-- The explicit name comes first; the group adds what is not there.
planned : plan_features risk_view ("ratio" ∷ []) ("all" ∷ []) false ≡ ok plan
unfolding plan_features features_by_name
planned = refl

abbrev trial : FeatureViewDef
trial = record risk_view { features = record ratio { lifecycle = shadow; deps = [] } ∷ [] }

shadow_refused : plan_features trial ("ratio" ∷ []) [] false ≡ err (is_shadow "ratio")
unfolding plan_features features_by_name
shadow_refused = refl

group_refused : plan_features risk_view [] ("none" ∷ []) true ≡ err (unknown_group "none")
unfolding plan_features
group_refused = refl

plan_features-Planned_example : Planned risk_view ("ratio" ∷ []) ("all" ∷ []) false plan
plan_features-Planned_example =
    plan_features-Planned risk_view ("ratio" ∷ []) ("all" ∷ []) false plan planned

plan_features-Ends_example : Avoids out_of_fuel (plan_features trial ("ratio" ∷ []) [] false)
plan_features-Ends_example = plan_features-Ends trial ("ratio" ∷ []) [] false
