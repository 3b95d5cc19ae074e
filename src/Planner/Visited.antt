-- ===== src/Planner/Visited.antt =====
-- fs_core/planner.py: `_validate_deps` leaves a set of names that no edge leads out of.
use mathlib.Core.Path.{subst}
use clearfeature.Prelude.{
  ℕ, zero, suc, String, ◌≡◌, refl, inl, inr, false, some, List, [], ◌∷◌, ◌++◌, In, All, All-map,
  contains, contains→In, Dict, string_key, lookup, Result, ok, >>=-eq-ok, >>-eq-ok, reject_if,
  reject_if-eq-ok, Bool-cases, Option-cases, ◌≢◌,
}
use clearfeature.Registry.{Kind, udf, model_score, model, FeatureDependency, FeatureDef}
use clearfeature.Planner.{
  PlannerError, batch_only_dependency, is_model, visit_edges, visit_feature, visit, validate_deps,
}

module _ (by_name : Dict String FeatureDef) where
  -- An edge leads to a feature of the view that is no batch-only model and that was visited.
  abbrev pub Leads : List String → FeatureDependency → Type 0
  Leads done d =
      ((t : FeatureDef) × (lookup d.feature by_name ≡ some t) × (t.kind ≢ model))
      × In d.feature done

  abbrev pub IsClosed : List String → Type 0
  IsClosed done =
      (n : String)
      → In n done
      → (f : FeatureDef) × (lookup n by_name ≡ some f) × All (Leads done) f.deps

  abbrev pub Larger : List String → List String → Type 0
  Larger a b = (n : String) → In n a → In n b

  not_model : (k : Kind) → is_model k ≡ false → k ≢ model
  not_model udf h e = cc
  not_model model_score h e = cc
  not_model model h e = cc

  -- What is asked of the recursive call.
  abbrev Visits : (String → List String → Result PlannerError (List String)) → Type 0
  Visits go =
      (n : String) (done done' : List String)
      → IsClosed done
      → go n done ≡ ok done'
      → IsClosed done' × Larger done done' × In n done'

  module _ (go : String → List String → Result PlannerError (List String))
      (visits : Visits go) where
    visit_edges-IsClosed :
        (name : String) (ds : List FeatureDependency) (done done' : List String)
        → IsClosed done
        → visit_edges go by_name name ds done ≡ ok done'
        → IsClosed done' × Larger done done' × All (Leads done') ds
    unfolding visit_edges
    visit_edges-IsClosed name [] done done' c h =
        let e : done ≡ done' = cc in (subst IsClosed e c, λ n i. rw e at i, tt)
    visit_edges-IsClosed name (d ∷ ds) done done' c h =
        elim (Option-cases (lookup d.feature by_name)) [
          | inl missing ↦ cc (rw (missing, visit_edges) at h)
          | inr (t, known) ↦
              let (allowed, later) =
                >>-eq-ok (reject_if (is_model t.kind) (batch_only_dependency name d.feature)) _
                  (rw (known, visit_edges) at h) in
              let (mid, first, last) = >>=-eq-ok (go d.feature done) _ later in
              let (c₁, l₁, i₁) = visits d.feature done mid c first in
              let (c₂, l₂, rest) = visit_edges-IsClosed name ds mid done' c₁ last in
              (
                c₂,
                λ n i. l₂ n (l₁ n i),
                (
                  (
                    (
                      t,
                      known,
                      not_model t.kind
                          (reject_if-eq-ok _ (batch_only_dependency name d.feature) allowed),
                    ),
                    l₂ d.feature i₁,
                  ),
                  rest,
                ),
              )
        ]

    visit_feature-IsClosed :
        (name : String) (done done' : List String)
        → IsClosed done
        → visit_feature go by_name name done ≡ ok done'
        → IsClosed done' × Larger done done' × In name done'
    unfolding visit_feature
    visit_feature-IsClosed name done done' c h = elim (Option-cases (lookup name by_name)) [
      | inl missing ↦ cc (rw (missing, visit_feature) at h)
      | inr (f, known) ↦
          let (mid, first, last) =
            >>=-eq-ok (visit_edges go by_name name f.deps done) _
              (rw (known, visit_feature) at h) in
          let (c₁, l₁, leads) = visit_edges-IsClosed name f.deps done mid c first in
          let e : name ∷ mid ≡ done' = cc in
          let wider : (n : String) → In n mid → In n (name ∷ mid) = λ n i. inr i in
          let closed : IsClosed (name ∷ mid) = λ n i. elim i [
            | inl p ↦ rw p (f, known, All-map f.deps (λ d (t, j). (t, inr j)) leads)
            | inr j ↦
                let (g, known', ls) = c₁ n j in
                (g, known', All-map g.deps (λ d (t, j'). (t, inr j')) ls)
          ] in
          (
            subst IsClosed e closed,
            λ n i. subst (λ (q : List String). In n q) e (wider n (l₁ n i)),
            subst (λ (q : List String). In name q) e (inl refl),
          )
    ]

  visit-IsClosed : (fuel : ℕ) (visiting : List String) → Visits (visit fuel by_name visiting)
  unfolding visit
  visit-IsClosed zero visiting n done done' c h = cc
  visit-IsClosed (suc fuel) visiting n done done' c h = elim (Bool-cases (contains done n)) [
    | inl there ↦
        let e : done ≡ done' = cc (rw (there, visit) at h) in
        (subst IsClosed e c, λ k i. rw e at i, rw (← e) (contains→In done n there))
    | inr new ↦ elim (Bool-cases (contains visiting n)) [
      | inl cycle ↦ cc (rw (new, visit, cycle) at h)
      | inr fresh ↦
          visit_feature-IsClosed (visit fuel by_name (visiting ++ n ∷ []))
            (visit-IsClosed fuel (visiting ++ n ∷ [])) n done done' c (rw (new, visit, fresh) at h)
    ]
  ]

  pub validate_deps-IsClosed :
      (fuel : ℕ) (names done done' : List String)
      → IsClosed done
      → validate_deps fuel by_name names done ≡ ok done'
      → IsClosed done' × Larger done done' × All (λ n. In n done') names
  unfolding validate_deps
  validate_deps-IsClosed fuel [] done done' c h =
      let e : done ≡ done' = cc in (subst IsClosed e c, λ n i. rw e at i, tt)
  validate_deps-IsClosed fuel (n ∷ names) done done' c h =
      let (mid, first, last) = >>=-eq-ok (visit fuel by_name [] n done) _ h in
      let (c₁, l₁, i₁) = visit-IsClosed fuel [] n done mid c first in
      let (c₂, l₂, rest) = validate_deps-IsClosed fuel names mid done' c₁ last in
      (c₂, λ k i. l₂ k (l₁ k i), (l₂ n i₁, rest))
