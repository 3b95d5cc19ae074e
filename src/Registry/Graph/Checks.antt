-- ===== src/Registry/Graph/Checks.antt =====
-- fs_core/registry/validator.py: what each check of one feature or group shows when it passes.
use clearfeature.Prelude.{
  ℕ, String, ◌≡◌, inl, inr, true, false, Option, none, some, List, [], ◌∷◌, In, All, arith,
  contains→In, string_key, lookup, ok, >>-eq-ok, reject_if-eq-ok, Option-cases, not-false,
}
use clearfeature.Registry.{Lifecycle, live, deprecated, FeatureDependency, FeatureDef}
use clearfeature.Registry.States.{allowed_dependency}
use clearfeature.Registry.Names.{lookup-features_by_name_inv}
use clearfeature.Registry.Validator.{
  features_by_name, check_inputs, check_dependency, check_dependencies, check_members,
  check_view_groups, unknown_source, unknown_member, version_pin, dependency_lifecycle, pin_differs,
}

-- The target of an edge: a feature of the view, at the version that the edge pins. Only live
-- features stand under a live one, and only deprecated features stand over a deprecated one.
pub record IsTarget (features : List FeatureDef) (f : FeatureDef) (d : FeatureDependency)
    (t : FeatureDef) : Type 0 where
  pub listed : In t features
  pub named : t.name ≡ d.feature
  pub pinned : (p : ℕ) → d.version ≡ some p → p ≡ t.feature_version
  pub live_on_live : f.lifecycle ≡ live → t.lifecycle ≡ live
  pub not_deprecated : t.lifecycle ≡ deprecated → f.lifecycle ≡ deprecated

pub check_inputs-All :
    (f : String) (sources ss : List String)
    → check_inputs f sources ss ≡ ok tt
    → All (λ s. In s sources) ss
unfolding check_inputs
check_inputs-All f sources [] h = tt
check_inputs-All f sources (s ∷ ss) h =
    let (known, later) = >>-eq-ok _ _ h in
    (
      contains→In sources s (not-false _ (reject_if-eq-ok _ (unknown_source f s) known)),
      check_inputs-All f sources ss later,
    )

pub check_members-All :
    (g : String) (ns ms : List String) → check_members g ns ms ≡ ok tt → All (λ m. In m ns) ms
unfolding check_members
check_members-All g ns [] h = tt
check_members-All g ns (m ∷ ms) h =
    let (known, later) = >>-eq-ok _ _ h in
    (
      contains→In ns m (not-false _ (reject_if-eq-ok _ (unknown_member g m) known)),
      check_members-All g ns ms later,
    )

pub check_view_groups-All :
    (ns : List String) (gs : List (String × List String))
    → check_view_groups ns gs ≡ ok tt
    → All (λ g. All (λ m. In m ns) g.1) gs
unfolding check_view_groups
check_view_groups-All ns [] h = tt
check_view_groups-All ns ((g, ms) ∷ gs) h =
    let (here, later) = >>-eq-ok _ _ h in
    (check_members-All g ns ms here, check_view_groups-All ns gs later)

pub pin_differs-false : (v : Option ℕ) (n p : ℕ) → pin_differs v n ≡ false → v ≡ some p → p ≡ n
pin_differs-false none n p h e = cc
pin_differs-false (some q) n p h e = ground arith

pub allowed_cases :
    (f t : Lifecycle)
    → allowed_dependency f t ≡ true
    → (f ≡ live → t ≡ live) × (t ≡ deprecated → f ≡ deprecated)
unfolding allowed_dependency
allowed_cases f t h = ground arith

module _ (features : List FeatureDef) (f : FeatureDef) where
  pub check_dependency-IsTarget :
      (d : FeatureDependency)
      → check_dependency (features_by_name features) f d ≡ ok tt
      → (t : FeatureDef) × IsTarget features f d t
  unfolding check_dependency
  check_dependency-IsTarget d h =
      elim (Option-cases (lookup d.feature (features_by_name features))) [
        | inl missing ↦ cc (rw (missing, check_dependency) at h)
        | inr (t, known) ↦
            let (pin, states) = >>-eq-ok _ _ (rw (known, check_dependency) at h) in
            let pin_ok = reject_if-eq-ok _ (version_pin f.name d.feature) pin in
            let allowed =
              not-false _ (reject_if-eq-ok _ (dependency_lifecycle f.name d.feature) states) in
            let (i, e) = lookup-features_by_name_inv features d.feature t known in
            (
              t,
              record {
                listed = i;
                named = e;
                pinned = λ p at. pin_differs-false d.version t.feature_version p pin_ok at;
                live_on_live = λ l. (allowed_cases f.lifecycle t.lifecycle allowed).0 l;
                not_deprecated = λ l. (allowed_cases f.lifecycle t.lifecycle allowed).1 l;
              },
            )
      ]

  pub check_dependencies-All :
      (ds : List FeatureDependency)
      → check_dependencies (features_by_name features) f ds ≡ ok tt
      → All (λ d. (t : FeatureDef) × IsTarget features f d t) ds
  unfolding check_dependencies
  check_dependencies-All [] h = tt
  check_dependencies-All (d ∷ ds) h =
      let (here, later) = >>-eq-ok _ _ h in
      (check_dependency-IsTarget d here, check_dependencies-All ds later)
