-- ===== src/Compute/Finished.antt =====
-- fs_core/compute/engine.py: the end of `_resolve`, which computes a feature over its inputs.
use mathlib.Core.Path.{subst}
use clearfeature.Prelude.{
  String, ◌≡◌, sym, ap, ◌∙◌, inl, inr, Bool, false, Option, none, some, List, ◌++◌, map, In,
  In-append_left, In-append_right, All, All-map, All→In, In→All, Dict, string_key, lookup, Result,
  ok, err, err≢ok, ok-injective, >>=-eq-ok, ok-injective_pair,
}
use clearfeature.Registry.{FeatureDef}
use clearfeature.Compute.Context.{
  udf_failed, outside, FeatureComputation, Context, Udf, cache_feature, is_skipped, get_udf,
}
use clearfeature.Compute.Derive.{Input, source_inputs, dependency_inputs, derive}
use clearfeature.Compute.Bounds.{
  derive-Bounds, derive-value, In-source_inputs, In-dependency_inputs,
}
use clearfeature.Compute.Resolve.{Env, finish}
use clearfeature.Compute.Traced.{IsNamed, IsOver, IsTracedFrom, Entered}
use clearfeature.Compute.Walk.{Held, Edge}
use clearfeature.Compute.Stored.{cached}

module _ {V P : Type 0} where
  module _ (env : Env V P) (base : Context V P) (visiting : List String) (name : String)
      (f : FeatureDef) (known : lookup name env.by_name ≡ some f) (away : ¬ In name visiting) where
    outside-eq-ok :
        (r : Result String V) (value : V) → outside udf_failed r ≡ ok value → r ≡ ok value
    outside-eq-ok (err message) value h = absurd (err≢ok h)
    outside-eq-ok (ok v) value h = ap ok (ok-injective h)

    derive-IsOver :
        (c : Context V P) (sources : Dict String P) (acc : Dict String (FeatureComputation V))
        (udf : Udf V P) (value : V) (degraded : Bool) (from_sources from_deps : List Input)
        (k : FeatureComputation V)
        → Held c acc
        → ((n : String) (j : FeatureComputation V) → In (n, j) acc → IsNamed f.deps n)
        → get_udf env.udfs f.udf_name ≡ ok udf
        → udf sources (map (λ p. (p.0, p.1.value)) acc) ≡ ok value
        → source_inputs env.stamps f.inputs ≡ ok from_sources
        → dependency_inputs env.by_name acc ≡ ok from_deps
        → All (Edge env c acc) f.deps
        → derive env.hash_value env.fingerprint value degraded (from_sources ++ from_deps) ≡ ok k
        → IsOver env c f k
    derive-IsOver c sources acc udf value degraded from_sources from_deps k held named registered
          valued e₁ e₂ edges e₃ =
        let bounds =
          derive-Bounds env.hash_value env.fingerprint value degraded (from_sources ++ from_deps) k
            e₃ in
        record {
          sources = sources;
          used = acc;
          udf = udf;
          registered = registered;
          valued =
              valued
              ∙ ap ok (
                  sym
                    (derive-value env.hash_value env.fingerprint value degraded
                      (from_sources ++ from_deps) k e₃).0);
          held = held;
          named = named;
          from_sources = In→All _ f.inputs (λ src i.
              let (stamp, e, (input, j, ts, at)) =
                In-source_inputs env.stamps f.inputs from_sources src e₁ i in
              (
                stamp,
                e,
                rw (ts, at) at
                    (All→In _ (from_sources ++ from_deps) bounds input
                      (In-append_left input from_sources from_deps j)),
              ));
          from_dependencies =
              All-map f.deps
                (λ d edge. elim edge [
                  | inl (j, (e, fresh), i) ↦
                      let (input, l, ts, at) =
                        In-dependency_inputs env.by_name acc from_deps d.feature j e₂ i in
                      inl (
                        j,
                        (e, fresh),
                        i,
                        rw (ts, at) at
                            (All→In _ (from_sources ++ from_deps) bounds input
                              (In-append_right input from_sources from_deps l)),
                      )
                  | inr optional ↦ inr optional
                ])
                edges;
        }

    pub finish-Entered :
        (sources : Dict String P) (acc : Dict String (FeatureComputation V)) (degraded : Bool)
        (c : Context V P) (found : Option (FeatureComputation V)) (c' : Context V P)
        → IsTracedFrom env base c
        → lookup name c.features ≡ none
        → is_skipped name c ≡ false
        → Held c acc
        → ((n : String) (j : FeatureComputation V) → In (n, j) acc → IsNamed f.deps n)
        → All (Edge env c acc) f.deps
        → finish env name f sources acc degraded c ≡ ok (found, c')
        → Entered env base visiting name c found c'
    unfolding finish
    finish-Entered sources acc degraded c found c' t absent unskipped held named edges h =
        let (from_sources, e₁, h₁) = >>=-eq-ok (source_inputs env.stamps f.inputs) _ h in
        let (from_deps, e₂, h₂) = >>=-eq-ok (dependency_inputs env.by_name acc) _ h₁ in
        let (udf, registered, h₃) = >>=-eq-ok (get_udf env.udfs f.udf_name) _ h₂ in
        let (value, valued, h₄) =
          >>=-eq-ok (outside udf_failed (udf sources (map (λ p. (p.0, p.1.value)) acc))) _ h₃ in
        let (k, e₅, last) =
          >>=-eq-ok
            (derive env.hash_value env.fingerprint value degraded (from_sources ++ from_deps)) _
            h₄ in
        let c₂ = cache_feature name k c in
        let (it, same) = ok-injective_pair last in
        subst (λ (q : Context V P). Entered env base visiting name c found q) same
          (subst (λ (q : Option (FeatureComputation V)). Entered env base visiting name c q c₂) it
            (cached env base visiting name f known away k c t absent unskipped
              (derive-value env.hash_value env.fingerprint value degraded
                (from_sources ++ from_deps) k e₅).1
              (derive-IsOver c sources acc udf value degraded from_sources from_deps k held named
                registered (outside-eq-ok _ value valued) e₁ e₂ edges e₅)))
