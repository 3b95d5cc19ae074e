-- ===== src/Compute/Sound.antt =====
-- fs_core/compute/engine.py: `_resolve` keeps the computations of the context traced.
use mathlib.Core.Path.{subst}
use clearfeature.Prelude.{
  ℕ, zero, suc, String, ◌≡◌, refl, sym, ap, ◌∙◌, inl, inr, false, Option, none, some, List, [], ◌∷◌,
  ◌++◌, In, In-append_left, In-append_right, contains, not-In, Dict, string_key, lookup, Result, ok,
  >>=-eq-ok, ok-injective_pair, Bool-cases, Option-cases,
}
use clearfeature.Registry.{FeatureDef}
use clearfeature.Compute.Context.{
  ComputeError, FeatureComputation, Context, get_feature, is_skipped, mark_skipped,
}
use clearfeature.Compute.Resolve.{
  Env, Resolved, Edges, stop, go_on, load_sources, resolve_edges, finish, compute_feature, resolve,
}
use clearfeature.Compute.Traced.{
  IsSame, IsSame-is_skipped, IsTracedFrom, IsTracedFrom-same, Entered, Sound, Entered-same,
}
use clearfeature.Compute.Walk.{load_sources-IsSame, Walk, resolve_edges-Walk}
use clearfeature.Compute.Stored.{mark_skipped-Entered}
use clearfeature.Compute.Finished.{finish-Entered}

module _ {V P : Type 0} where
  module _ (env : Env V P) (base : Context V P) (visiting : List String) (name : String)
      (go : String → Context V P → Resolved V P) (sound : Sound env base (visiting ++ name ∷ []) go)
      (f : FeatureDef) (known : lookup name env.by_name ≡ some f) (away : ¬ In name visiting) where
    after_edges :
        (sources : Dict String P) (c₁ : Context V P) (found : Option (FeatureComputation V))
        (c' : Context V P) (out : Edges V P)
        → lookup name c₁.features ≡ none
        → is_skipped name c₁ ≡ false
        → Walk env base (visiting ++ name ∷ []) name c₁ [] f.deps out
        → ◌≡◌ {A = Result ComputeError (Option (FeatureComputation V) × Context V P)}
            (elim out [
              | stop c₂ ↦ ok (none, c₂)
              | go_on acc degraded c₂ ↦ finish env name f sources acc degraded c₂
            ])
            (ok (found, c'))
        → Entered env base visiting name c₁ found c'
    after_edges sources c₁ found c' (stop c₂) absent unskipped (before, e, a) h =
        let (it, same) = ok-injective_pair h in
        subst (λ (q : Context V P). Entered env base visiting name c₁ found q) (e ∙ same)
          (subst
            (λ (q : Option (FeatureComputation V)).
              Entered env base visiting name c₁ q (mark_skipped name before))
            it (mark_skipped-Entered env base visiting name away c₁ before absent a))
    after_edges sources c₁ found c' (go_on acc degraded c₂) absent unskipped
          (a, held, _, back, edges) h =
        let (features, statuses) =
          a.keeps name (In-append_right name visiting (name ∷ []) (inl refl)) in
        let e =
          finish-Entered env base visiting name f known away sources acc degraded c₂ found c'
            a.traced (features ∙ absent) (statuses ∙ unskipped) held
            (λ n j i. elim (back n j i) [ inl none_yet ↦ elim none_yet [ ] | inr named ↦ named ])
            edges h in
        record {
          traced = e.traced;
          extends = λ n k p. e.extends n k (a.extends n k p);
          skips = λ n p. e.skips n (a.skips n p);
          keeps = λ v i.
              let (before_f, before_s) = a.keeps v (In-append_left v visiting (name ∷ []) i) in
              ((e.keeps v i).0 ∙ before_f, (e.keeps v i).1 ∙ before_s);
          stored = e.stored;
          passed = e.passed;
        }

    compute_feature-Entered :
        (c : Context V P) (found : Option (FeatureComputation V)) (c' : Context V P)
        → IsTracedFrom env base c
        → lookup name c.features ≡ none
        → is_skipped name c ≡ false
        → compute_feature env go name f c ≡ ok (found, c')
        → Entered env base visiting name c found c'
    unfolding compute_feature
    compute_feature-Entered c found c' t absent unskipped h =
        let ((sources, c₁), first, h₁) = >>=-eq-ok (load_sources env.loader f.inputs [] c) _ h in
        let loaded = load_sources-IsSame env.loader f.inputs [] sources c c₁ first in
        let (edges, second, last) =
          >>=-eq-ok (resolve_edges go env.calc_ts name f.deps [] false c₁) _ h₁ in
        let loaded_traced = IsTracedFrom-same env base c c₁ loaded t in
        let skipped_same = IsSame-is_skipped c c₁ loaded in
        let entered =
          after_edges sources c₁ found c' edges (sym (ap (lookup name) loaded.features) ∙ absent)
            (sym (skipped_same name) ∙ unskipped)
            (resolve_edges-Walk env base (visiting ++ name ∷ []) name go sound f.deps [] false c₁
              edges loaded_traced (λ n k i. elim i [ ]) second)
            last in
        record {
          traced = entered.traced;
          extends = λ n k p. entered.extends n k (sym (ap (lookup n) loaded.features) ∙ p);
          skips = λ n p. entered.skips n (sym (skipped_same n) ∙ p);
          keeps = λ v i. (
            (entered.keeps v i).0 ∙ sym (ap (lookup v) loaded.features),
            (entered.keeps v i).1 ∙ sym (skipped_same v),
          );
          stored = entered.stored;
          passed = entered.passed;
        }

  IsSame-of : (c c' : Context V P) → c ≡ c' → IsSame c c'
  IsSame-of c c' e = rw (← e) (record { features = refl; statuses = refl })

  pub resolve-Sound :
      (fuel : ℕ) (env : Env V P) (base : Context V P) (visiting : List String)
      → Sound env base visiting (resolve fuel env visiting)
  unfolding resolve get_feature
  resolve-Sound zero env base visiting n c found c' t h = cc
  resolve-Sound (suc fuel) env base visiting n c found c' t h =
      elim (Option-cases (lookup n c.features)) [
        | inr (k, held) ↦
            let (it, same) = ok-injective_pair (rw (held, resolve) at h) in
            Entered-same env base visiting n c c' found t (IsSame-of c c' same)
              (λ j p. held ∙ it ∙ p) (λ p. cc (it, p))
        | inl absent ↦ elim (Bool-cases (is_skipped n c)) [
          | inl skipped_before ↦
              let (it, same) = ok-injective_pair (rw (absent, resolve, skipped_before) at h) in
              Entered-same env base visiting n c c' found t (IsSame-of c c' same)
                (λ j p. cc (it, p)) (λ _. skipped_before)
          | inr unskipped ↦ elim (Option-cases (lookup n env.by_name)) [
            | inl unknown ↦ cc (rw (absent, resolve, unskipped, unknown) at h)
            | inr (f, known) ↦ elim (Bool-cases (contains visiting n)) [
              | inl cycle ↦ cc (rw (absent, resolve, unskipped, known, cycle) at h)
              | inr fresh ↦
                  compute_feature-Entered env base visiting n
                    (resolve fuel env (visiting ++ n ∷ []))
                    (resolve-Sound fuel env base (visiting ++ n ∷ [])) f known
                    (not-In visiting n fresh) c found c' t absent unskipped
                    (rw (absent, resolve, unskipped, known, fresh) at h)
            ]
          ]
        ]
      ]
