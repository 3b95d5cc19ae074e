-- ===== src/Registry/Graph/Accepted.antt =====
-- fs_core/registry/validator.py: what is true of every view of a registry that passed.
use mathlib.Core.Path.{subst}
use clearfeature.Prelude.{
  ℕ, suc, ◌≤◌, ◌<◌, String, ◌≡◌, inl, inr, none, some, List, [], ◌∷◌, map, length, In, In→All, All,
  All→In, All-map, IsUnique, arith, string_key, lookup, ok, >>=-eq-ok, >>-eq-ok, Option-cases,
}
use clearfeature.Registry.{FeatureDef, EntityDef, FeatureViewDef, Registry}
use clearfeature.Registry.Names.{names, lookup-features_by_name, unique_names-IsUnique}
use clearfeature.Registry.Validator.{
  Memo, features_by_name, depth_cap, validate_dependency_graph, check_features, check_view_groups,
  find_entity, validate_view, validate_views, validate_registry, unique_names,
}
use clearfeature.Registry.Graph.Rank.{IsRanked, depth_all-IsRanked}
use clearfeature.Registry.Graph.Checks.{
  IsTarget, check_inputs-All, check_view_groups-All, check_dependencies-All,
}

-- One feature of an accepted view.
pub record IsSoundFeature (sources : List String) (features : List FeatureDef) (cap : ℕ)
    (rank : String → ℕ) (f : FeatureDef) : Type 0 where
  pub inputs : All (λ s. In s sources) f.inputs
  pub targets : All (λ d. (t : FeatureDef) × IsTarget features f d t) f.deps
  pub capped : rank f.name ≤ cap
  pub falling : All (λ d. rank d.feature < rank f.name) f.deps

-- Feature names are unique, every feature is sound under one ranking, and the members of every
-- group are features.
pub record IsSoundView (sources : List String) (v : FeatureViewDef) : Type 0 where
  pub unique : IsUnique (names v.features)
  pub rank : String → ℕ
  pub features : All (IsSoundFeature sources v.features (depth_cap v) rank) v.features
  pub groups : All (λ g. All (λ m. In m (names v.features)) g.1) v.feature_groups

check_features-All :
    (sources : List String) (features fs : List FeatureDef)
    → check_features sources (features_by_name features) fs ≡ ok tt
    → All
        (λ f.
          All (λ s. In s sources) f.inputs
          × All (λ d. (t : FeatureDef) × IsTarget features f d t) f.deps)
        fs
unfolding check_features
check_features-All sources features [] h = tt
check_features-All sources features (f ∷ fs) h =
    let (inputs, rest) = >>-eq-ok _ _ h in
    let (deps, later) = >>-eq-ok _ _ rest in
    (
      (
        check_inputs-All f.name sources f.inputs inputs,
        check_dependencies-All features f f.deps deps,
      ),
      check_features-All sources features fs later,
    )

abbrev pub rank_in : Memo → String → ℕ
rank_in m n = elim (lookup n m) [ none ↦ 0 | some d ↦ d ]

rank_in-some : (m : Memo) (n : String) (d : ℕ) → lookup n m ≡ some d → rank_in m n ≡ d
rank_in-some m n d e = rw (e, rank_in)

module _ (features : List FeatureDef) (cap : ℕ) (m : Memo) (unique : IsUnique (names features))
    (ranked : IsRanked (features_by_name features) cap m) where
  ranked_feature :
      (f : FeatureDef) (d : ℕ)
      → In f features
      → lookup f.name m ≡ some d
      → (rank_in m f.name ≤ cap) × All (λ e. rank_in m e.feature < rank_in m f.name) f.deps
  ranked_feature f d i stored =
      let (g, known, fits, deps) = ranked.at_name f.name d stored in
      let same : g ≡ f = cc (known, lookup-features_by_name features f unique i) in
      (
        omega (arith, rank_in-some m f.name d stored),
        All-map f.deps
            (λ e (k, at, lt).
              omega (arith, rank_in-some m e.feature k at, rank_in-some m f.name d stored))
            (subst
              (λ (h : FeatureDef).
                All (λ e. (k : ℕ) × (lookup e.feature m ≡ some k) × (k < d)) h.deps)
              same deps),
      )

IsSoundView-of_checks :
    (sources : List String) (v : FeatureViewDef) (got : List String) (m : Memo)
    → unique_names (names v.features) ≡ ok got
    → check_features sources (features_by_name v.features) v.features ≡ ok tt
    → validate_dependency_graph v ≡ ok m
    → check_view_groups got v.feature_groups ≡ ok tt
    → IsSoundView sources v
unfolding validate_dependency_graph
IsSoundView-of_checks sources v got m u checked graph grouped =
    let (unique, same) = unique_names-IsUnique (names v.features) got u in
    let nothing : IsRanked (features_by_name v.features) (depth_cap v) [] = record {
      at_name = λ n d e. unfold lookup in cc;
    } in
    let (ranked, _, stored) =
      depth_all-IsRanked (features_by_name v.features) (depth_cap v) (suc (length v.features))
        v.features [] m nothing graph in
    let fine = check_features-All sources v.features v.features checked in
    record {
      unique = unique;
      rank = rank_in m;
      features = In→All _ v.features (λ f i.
          let (inputs, targets) = All→In _ v.features fine f i in
          let (d, at) = All→In _ v.features stored f i in
          let (capped, falling) =
            ranked_feature v.features (depth_cap v) m unique ranked f d i at in
          record { inputs = inputs; targets = targets; capped = capped; falling = falling });
      groups =
          All-map v.feature_groups (λ g members. All-map g.1 (λ n i. (same n).0 i) members)
            (check_view_groups-All got v.feature_groups grouped);
    }

validate_view-IsSoundView :
    (entities : List EntityDef) (sources : List String) (v : FeatureViewDef)
    → validate_view entities sources v ≡ ok tt
    → IsSoundView sources v
unfolding validate_view
validate_view-IsSoundView entities sources v h =
    elim (Option-cases (find_entity v.entity entities)) [
      | inl missing ↦ cc (rw (missing, validate_view) at h)
      | inr (entity, found) ↦
          let (_, h₁) = >>-eq-ok _ _ (rw (found, validate_view) at h) in
          let (got, u, h₂) = >>=-eq-ok (unique_names (names v.features)) _ h₁ in
          let (checked, h₃) = >>-eq-ok _ _ h₂ in
          let (m, graph, grouped) = >>=-eq-ok (validate_dependency_graph v) _ h₃ in
          IsSoundView-of_checks sources v got m u checked graph grouped
    ]

validate_views-All :
    (entities : List EntityDef) (sources : List String) (vs : List FeatureViewDef)
    → validate_views entities sources vs ≡ ok tt
    → All (IsSoundView sources) vs
unfolding validate_views
validate_views-All entities sources [] h = tt
validate_views-All entities sources (v ∷ vs) h =
    let (here, later) = >>-eq-ok _ _ h in
    (
      validate_view-IsSoundView entities sources v here,
      validate_views-All entities sources vs later,
    )

IsSoundView-sources :
    (ss ss' : List String)
    → ((n : String) → In n ss → In n ss')
    → (v : FeatureViewDef) → IsSoundView ss v
    → IsSoundView ss' v
IsSoundView-sources ss ss' sub v s = record {
  unique = s.unique;
  rank = s.rank;
  features =
      All-map v.features
        (λ f g. record {
          inputs = All-map f.inputs (λ n i. sub n i) g.inputs;
          targets = g.targets;
          capped = g.capped;
          falling = g.falling;
        })
        s.features;
  groups = s.groups;
}

-- In a registry that passed, in every view: feature names are unique; the inputs of a feature are
-- sources of the registry; an edge leads to a feature of the view, at the pinned version, live
-- under live, and deprecated only under deprecated; one ranking of the names is at most the depth
-- cap and falls along every edge; and the members of the groups are features.
pub validate_registry-IsSoundView :
    (r : Registry)
    → validate_registry r ≡ ok tt
    → All (IsSoundView (map (λ s. s.name) r.sources)) r.feature_views
unfolding validate_registry
validate_registry-IsSoundView r h =
    let (_, _, h₁) = >>=-eq-ok (unique_names (map (λ e. e.name) r.entities)) _ h in
    let (sources, u, h₂) = >>=-eq-ok (unique_names (map (λ s. s.name) r.sources)) _ h₁ in
    let (_, _, h₃) = >>=-eq-ok (unique_names (map (λ v. v.name) r.feature_views)) _ h₂ in
    let (_, same) = unique_names-IsUnique (map (λ s. s.name) r.sources) sources u in
    All-map r.feature_views (IsSoundView-sources sources _ (λ n. (same n).0))
      (validate_views-All r.entities sources r.feature_views h₃)
