-- ===== src/Planner/Planned.antt =====
-- fs_core/planner.py: what a plan holds when the request is accepted.
use mathlib.Core.Path.{subst}
use clearfeature.Prelude.{
  suc, String, ◌≡◌, refl, ◌↔◌, ◌⊎◌, inl, inr, Bool, List, [], In, All, length, ◌==◌, IsUnique,
  string_key, Result, ok, >>=-eq-ok, >>-eq-ok, reject_if,
}
use clearfeature.Registry.{FeatureViewDef}
use clearfeature.Registry.Validator.{features_by_name}
use clearfeature.Planner.Visited.{IsClosed, validate_deps-IsClosed}
use clearfeature.Planner.{
  PlannerError, unknown_feature, add_names, add_groups, groups_of, FeaturePlan, plan_features,
  no_outputs, validate_deps, outputs, shadows,
}
use clearfeature.Planner.Added.{IsComputable, InGroups, add_names-Added, add_groups-Added}

-- What a plan holds. The names in `closed` are those that the search over the edges visited.
pub record Planned (v : FeatureViewDef) (requested groups : List String) (allow_shadow : Bool)
    (p : FeaturePlan) : Type 0 where
  pub named : (p.view ≡ v.name) × (p.view_version ≡ v.view_version)
  pub unique : IsUnique p.compute_features
  pub exactly :
      (n : String)
      → In n p.compute_features
        ↔ (In n requested ⊎ InGroups (groups_of v.feature_groups []) groups n)
  pub computable :
      (n : String)
      → In n p.compute_features
      → IsComputable (features_by_name v.features) allow_shadow n
  pub closed :
      (done : List String) × IsClosed (features_by_name v.features) done
      × All (λ n. In n done) p.compute_features

-- An accepted request is planned: the output set holds, once each, exactly the features that were
-- named and those of the named groups; each of them is a UDF of the view that is live, or shadow
-- where that is allowed; and what they depend on, over any number of edges, is of the view and is
-- no batch-only model.
pub plan_features-Planned :
    (v : FeatureViewDef) (requested groups : List String) (allow_shadow : Bool) (p : FeaturePlan)
    → plan_features v requested groups allow_shadow ≡ ok p
    → Planned v requested groups allow_shadow p
unfolding plan_features
plan_features-Planned v requested groups allow_shadow p h =
    let by_name = features_by_name v.features in
    let (explicit, first, h₁) =
      >>=-eq-ok (add_names by_name allow_shadow unknown_feature requested []) _ h in
    let ((expanded, ordered), second, h₂) =
      >>=-eq-ok (add_groups by_name (groups_of v.feature_groups []) allow_shadow groups [] explicit)
        _ h₁ in
    let (_, h₃) = >>-eq-ok (reject_if (length ordered == 0) no_outputs) _ h₂ in
    let (done, third, last) =
      >>=-eq-ok (validate_deps (suc (length v.features)) by_name ordered []) _ h₃ in
    let a = add_names-Added by_name allow_shadow unknown_feature requested [] explicit first in
    let b =
      add_groups-Added by_name allow_shadow (groups_of v.feature_groups []) groups [] expanded
        explicit ordered second in
    let (c, _, held) =
      validate_deps-IsClosed by_name (suc (length v.features)) ordered [] done (λ n i. elim i [ ])
        third in
    let plan : FeaturePlan = record {
      view = v.name;
      view_version = v.view_version;
      requested_outputs = outputs by_name ordered;
      compute_features = ordered;
      expanded_groups = expanded;
      shadow_features = shadows by_name ordered;
    } in
    let made : ◌≡◌ {A = Result PlannerError FeaturePlan} (ok plan) (ok p) = last in
    let same : plan ≡ p = cc in
    subst (Planned v requested groups allow_shadow) same (record {
      named = (refl, refl);
      unique = b.unique (a.unique tt);
      exactly = λ n. (
        λ i. elim ((b.members n).0 i) [
          | inl j ↦ elim ((a.members n).0 j) [ inl k ↦ elim k [ ] | inr k ↦ inl k ]
          | inr g ↦ inr g
        ],
        λ h. elim h [
          | inl j ↦ (b.members n).1 (inl ((a.members n).1 (inr j)))
          | inr g ↦ (b.members n).1 (inr g)
        ],
      );
      computable = λ n i. elim ((b.members n).0 i) [
        | inl j ↦ elim ((a.members n).0 j) [ inl k ↦ elim k [ ] | inr k ↦ a.computable n k ]
        | inr g ↦ b.computable n g
      ];
      closed = (done, c, held);
    })
