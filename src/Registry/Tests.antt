-- ===== src/Registry/Tests.antt =====
-- Runs of the validator, and its theorems at a small registry.
use clearfeature.Prelude.{◌≡◌, refl, inl, inr, [], ◌∷◌, map, All, In, ok, err}
use clearfeature.Registry.{live, FeatureViewDef}
use clearfeature.Registry.Validator.{dependency_cycle, validate_registry, validate_dependency_graph}
use clearfeature.Registry.Graph.Fuel.{Ends, validate_dependency_graph-Ends}
use clearfeature.Registry.Graph.Accepted.{IsSoundView, validate_registry-IsSoundView}
use clearfeature.Registry.Graph.Closure.{
  Reaches, direct, validate_registry_acyclic, validate_registry_live_closed,
}
use clearfeature.Samples.{sample_registry, risk_view, income, ratio, feature_of, edge_to}

passed : validate_registry sample_registry ≡ ok tt
unfolding validate_registry
passed = refl

abbrev looping : FeatureViewDef
looping = record risk_view {
  features = feature_of "a" [] (edge_to "b" ∷ []) ∷ feature_of "b" [] (edge_to "a" ∷ []) ∷ [];
}

cycle_found : validate_dependency_graph looping ≡ err (dependency_cycle ("a" ∷ "b" ∷ "a" ∷ []))
unfolding validate_dependency_graph
cycle_found = refl

validate_registry-IsSoundView_example :
    All (IsSoundView (map (λ s. s.name) sample_registry.sources)) sample_registry.feature_views
validate_registry-IsSoundView_example = validate_registry-IsSoundView sample_registry passed

validate_dependency_graph-Ends_example : Ends (validate_dependency_graph looping)
validate_dependency_graph-Ends_example = validate_dependency_graph-Ends looping

validate_registry_acyclic_example : ¬ Reaches risk_view.features ratio ratio
validate_registry_acyclic_example =
    validate_registry_acyclic sample_registry passed risk_view (inl refl) ratio (inl refl)

validate_registry_live_closed_example : In income risk_view.features × (income.lifecycle ≡ live)
validate_registry_live_closed_example =
    validate_registry_live_closed sample_registry passed risk_view (inl refl) ratio (inl refl)
      income refl (direct (edge_to "income") (inl refl) (inr (inl refl)) refl)
