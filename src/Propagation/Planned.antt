-- ===== src/Propagation/Planned.antt =====
-- Which candidates `plan_recompute_wave` of fs_core/propagation.py returns.
use clearfeature.Prelude.{
  String, ◌≡◌, ◌↔◌, refl, sym, ◌∙◌, ap, inl, inr, true, some, List, [], In, Dict, string_key,
  lookup, ok, some-injective, IsUnique,
}
use clearfeature.Registry.{FeatureDependency, FeatureDef, FeatureViewDef, Registry}
use clearfeature.Registry.Validator.{features_by_name}
use clearfeature.Registry.Names.{names, lookup-features_by_name}
use clearfeature.Events.Updated.{FeatureUpdated}
use clearfeature.Propagation.{RecomputeCandidate}
use clearfeature.Propagation.Wave.{
  is_reactive, find_view, Edge, reactive_dependents, or_version, candidate_of, sort_candidates,
  plan_recompute_wave,
}
use clearfeature.Propagation.Indexed.{edges_of, IsViewEdge, index_features-In}
use clearfeature.Propagation.Candidates.{IsCandidate, candidates_of-IsMade, sort_candidates-In}

-- A recompute that the update calls for: of a feature of the view with a reactive edge to the
-- updated feature, which is not pinned to another version.
pub record IsDue (v : FeatureViewDef) (event : FeatureUpdated) (c : RecomputeCandidate)
    : Type 0 where
  pub dependent : FeatureDef
  pub dep : FeatureDependency
  pub in_view : In dependent v.features
  pub an_edge : In dep dependent.deps
  pub on_update : is_reactive dep.propagation ≡ true
  pub of_updated : dep.feature ≡ event.feature_name
  pub pinned : or_version dep.version event.feature_version ≡ event.feature_version
  pub made : c ≡ candidate_of event dependent.name dependent

module _ (v : FeatureViewDef) (event : FeatureUpdated)
    (distinct : IsUnique (names v.features)) where
  abbrev by_name : Dict String FeatureDef
  by_name = features_by_name v.features

  abbrev edges : List Edge
  edges = edges_of event.feature_name (reactive_dependents v)

  edge_in_view : (e : Edge) → In e edges → IsViewEdge event.feature_name v.features e
  unfolding reactive_dependents lookup
  edge_in_view e i = elim ((index_features-In event.feature_name e v.features []).0 i) [
    | inl k ↦ k
    | inr j ↦ elim j [ ]
  ]

  name_known : (e : Edge) → In e edges → (f : FeatureDef) × (lookup e.0 by_name ≡ some f)
  name_known e i =
      let k = edge_in_view e i in
      (
        k.feature,
        ap (λ (n : String). lookup n by_name) k.edge.named
            ∙ lookup-features_by_name v.features k.feature distinct k.in_view,
      )

  IsCandidate-IsDue : (c : RecomputeCandidate) → IsCandidate event by_name edges c ↔ IsDue v event c
  unfolding reactive_dependents
  IsCandidate-IsDue c = (
    λ k.
        let on = edge_in_view k.edge k.listed in
        let found =
          ap (λ (n : String). lookup n by_name) on.edge.named
          ∙ lookup-features_by_name v.features on.feature distinct on.in_view in
        let same : k.dependent ≡ on.feature = some-injective (sym k.declared ∙ found) in
        record {
          dependent = on.feature;
          dep = k.edge.1;
          in_view = on.in_view;
          an_edge = on.edge.listed;
          on_update = on.edge.reactive_edge;
          of_updated = on.edge.from_input;
          pinned = k.pinned;
          made =
              k.made
              ∙ ap (λ (n : String). candidate_of event n k.dependent) on.edge.named
              ∙ ap (λ (g : FeatureDef). candidate_of event on.feature.name g) same;
        },
    λ k. record {
      edge = (k.dependent.name, k.dep);
      dependent = k.dependent;
      listed = (index_features-In event.feature_name (k.dependent.name, k.dep) v.features []).1 (
          inl (record {
            feature = k.dependent;
            in_view = k.in_view;
            edge = record {
              listed = k.an_edge;
              reactive_edge = k.on_update;
              from_input = k.of_updated;
              named = refl;
            };
          }));
      declared = lookup-features_by_name v.features k.dependent distinct k.in_view;
      pinned = k.pinned;
      made = k.made;
    },
  )

  -- The planner of a recompute wave, in a registry where the view of the update is found and has
  -- distinct feature names, returns exactly the candidates of those features of the view that
  -- have a reactive edge to the updated feature, an edge without a pin or with a pin to the
  -- updated version.
  pub plan_recompute_wave-IsDue :
      (registry : Registry)
      → find_view event.view event.view_version registry.feature_views ≡ some v
      → (candidates : List RecomputeCandidate) × (plan_recompute_wave registry event
          ≡ ok candidates)
        × ((c : RecomputeCandidate) → In c candidates ↔ IsDue v event c)
  unfolding plan_recompute_wave
  plan_recompute_wave-IsDue registry found =
      let m = candidates_of-IsMade event by_name edges name_known in
      (
        sort_candidates m.candidates,
        rw (found, m.returned) refl,
        λ c.
            let (only, if_so) = sort_candidates-In c m.candidates in
            let (due, made) = IsCandidate-IsDue c in
            (λ i. due ((m.due c).0 (only i)), λ k. if_so ((m.due c).1 (made k))),
      )
