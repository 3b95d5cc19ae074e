-- ===== src/Compute/Results.antt =====
-- fs_core/compute/engine.py: what `compute` returns.
use mathlib.Core.Path.{subst}
use clearfeature.Prelude.{
  ℕ, suc, String, ◌≡◌, refl, sym, ◌∙◌, inl, inr, Option, none, some, List, [], ◌∷◌, length, Dict,
  string_key, lookup, insert, lookup-insert_self, lookup-insert_ne, str_eq-cases, Result, ok, err,
  >>=-eq-ok, ok-injective_pair, err≢ok, none≢some,
}
use mathlib.Core.Option.{some-injective}
use clearfeature.Domain.{EntityKey, FeatureResult}
use clearfeature.Registry.{FeatureDef, FeatureViewDef, Registry}
use clearfeature.Registry.Validator.{features_by_name}
use clearfeature.Compute.Context.{
  ComputeError, unknown_feature, FeatureComputation, Context, fresh_context,
}
use clearfeature.Compute.Traced.{Extends, IsApart, IsOver, IsTracedFrom}
use clearfeature.Compute.Sound.{resolve-Sound}
use clearfeature.Compute.Resolve.{Env, resolve, to_result, compute_all, find_view_in, compute}

module _ {V P : Type 0} where
  -- Every result stands for a computation of the context, of the feature of its name.
  abbrev pub StandFor : Env V P → EntityKey → Context V P → Dict String (FeatureResult V) → Type 0
  StandFor env entity c results =
      (n : String) (r : FeatureResult V)
      → lookup n results ≡ some r
      → (k : FeatureComputation V) × (lookup n c.features ≡ some k)
        × ((f : FeatureDef) × (lookup n env.by_name ≡ some f)
            × (r ≡ to_result entity env.calc_ts f k))

  StandFor-Extends :
      (env : Env V P) (entity : EntityKey) (c c' : Context V P)
      (results : Dict String (FeatureResult V))
      → Extends c c'
      → StandFor env entity c results
      → StandFor env entity c' results
  StandFor-Extends env entity c c' results x s n r h =
      let (k, held, rest) = s n r h in (k, x n k held, rest)

  StandFor-insert :
      (env : Env V P) (entity : EntityKey) (n : String) (k : FeatureComputation V) (f : FeatureDef)
      (c : Context V P) (results : Dict String (FeatureResult V))
      → lookup n c.features ≡ some k
      → lookup n env.by_name ≡ some f
      → StandFor env entity c results
      → StandFor env entity c (insert n (to_result entity env.calc_ts f k) results)
  StandFor-insert env entity n k f c results held known s m r p =
      let made = to_result entity env.calc_ts f k in
      elim (str_eq-cases n m) [
        | inl (_, q) ↦
            let same : made ≡ r = some-injective _ _ (
              sym (lookup-insert_self n made results)
              ∙ subst (λ (m : String). lookup m (insert n made results) ≡ some r) (sym q) p) in
            (k, rw (← q) held, (f, rw (← q) known, sym same))
        | inr (_, ne) ↦ s m r (sym (lookup-insert_ne n m made results ne) ∙ p)
      ]

  -- What the rest of the loop is called with.
  abbrev Goes :
      ℕ
      → Env V P
      → EntityKey
      → List String
      → Dict String (FeatureResult V)
      → Context V P
      → Context V P
      → Type 0
  Goes fuel env entity names got c₁ c' =
      (next : Dict String (FeatureResult V)) × StandFor env entity c₁ next
      × (compute_all fuel env entity names next c₁ ≡ ok (got, c'))

  -- The round for a computed feature, by what is found under its name.
  compute_all-Goes :
      (fuel : ℕ) (env : Env V P) (entity : EntityKey) (n : String) (names : List String)
      (results got : Dict String (FeatureResult V)) (c' c₁ : Context V P) (k : FeatureComputation V)
      (o : Option FeatureDef)
      → lookup n env.by_name ≡ o
      → lookup n c₁.features ≡ some k
      → StandFor env entity c₁ results
      → ◌≡◌ {A = Result ComputeError (Dict String (FeatureResult V) × Context V P)}
          (elim o [
            | none ↦ err (unknown_feature n)
            | some f ↦
                compute_all fuel env entity names
                  (insert n (to_result entity env.calc_ts f k) results)
                  c₁
          ])
          (ok (got, c'))
      → Goes fuel env entity names got c₁ c'
  compute_all-Goes fuel env entity n names results got c' c₁ k none e held s h = absurd (err≢ok h)
  compute_all-Goes fuel env entity n names results got c' c₁ k (some f) e held s h = (
    insert n (to_result entity env.calc_ts f k) results,
    StandFor-insert env entity n k f c₁ results held e s,
    h,
  )

  -- One round of the loop.
  compute_next :
      (fuel : ℕ) (env : Env V P) (entity : EntityKey) (n : String) (names : List String)
      (results got : Dict String (FeatureResult V)) (c' c₁ : Context V P)
      (found : Option (FeatureComputation V))
      → ((k : FeatureComputation V) → found ≡ some k → lookup n c₁.features ≡ some k)
      → StandFor env entity c₁ results
      → ◌≡◌ {A = Result ComputeError (Dict String (FeatureResult V) × Context V P)}
          (elim found [
            | none ↦ compute_all fuel env entity names results c₁
            | some k ↦ elim (lookup n env.by_name) [
              | none ↦ err (unknown_feature n)
              | some f ↦
                  compute_all fuel env entity names
                    (insert n (to_result entity env.calc_ts f k) results)
                    c₁
            ]
          ])
          (ok (got, c'))
      → Goes fuel env entity names got c₁ c'
  compute_next fuel env entity n names results got c' c₁ none stored s h = (results, s, h)
  compute_next fuel env entity n names results got c' c₁ (some k) stored s h =
      compute_all-Goes fuel env entity n names results got c' c₁ k (lookup n env.by_name) refl
        (stored k refl) s h

  compute_all-StandFor :
      (fuel : ℕ) (env : Env V P) (base : Context V P) (entity : EntityKey) (names : List String)
      (results got : Dict String (FeatureResult V)) (c c' : Context V P)
      → IsTracedFrom env base c
      → StandFor env entity c results
      → compute_all fuel env entity names results c ≡ ok (got, c')
      → IsTracedFrom env base c' × StandFor env entity c' got × Extends c c'
  unfolding compute_all
  compute_all-StandFor fuel env base entity [] results got c c' t s h =
      let (same, at) = ok-injective_pair h in
      (
        subst (IsTracedFrom env base) at t,
        subst (λ (q : Context V P). StandFor env entity q got) at
            (subst (λ (q : Dict String (FeatureResult V)). StandFor env entity c q) same s),
        subst (Extends c) at (λ n k e. e),
      )
  compute_all-StandFor fuel env base entity (n ∷ names) results got c c' t s h =
      let ((found, c₁), first, later) = >>=-eq-ok (resolve fuel env [] n c) _ h in
      let e = resolve-Sound fuel env base [] n c found c₁ t first in
      let s₁ = StandFor-Extends env entity c c₁ results e.extends s in
      let (next, s', last) =
        compute_next fuel env entity n names results got c' c₁ found e.stored s₁ later in
      let (traced, stands, extends) =
        compute_all-StandFor fuel env base entity names next got c₁ c' e.traced s' last in
      (traced, stands, λ m k p. extends m k (e.extends m k p))

  -- The environment in which the features of `v` are computed.
  abbrev pub in_view : Env V P → FeatureViewDef → Env V P
  in_view env v = record env { by_name = features_by_name v.features }

  -- What `compute` returns for a request whose context may hold computations already.
  pub compute-IsTracedFrom :
      (r : Registry) (env : Env V P) (view : String) (view_version : ℕ) (entity : EntityKey)
      (requested : List String) (results : Dict String (FeatureResult V)) (base c : Context V P)
      → IsApart base
      → compute r env view view_version entity requested base ≡ ok (results, c)
      → (v : FeatureViewDef) × (find_view_in view view_version r.feature_views ≡ ok v)
        × IsTracedFrom (in_view env v) base c
        × StandFor (in_view env v) entity c results
        × Extends base c
  unfolding compute lookup
  compute-IsTracedFrom r env view view_version entity requested results base c apart h =
      let (v, first, later) = >>=-eq-ok (find_view_in view view_version r.feature_views) _ h in
      let (t, s, x) =
        compute_all-StandFor (suc (length v.features)) (in_view env v) base entity requested []
          results base c (record { at_name = λ n k p. inl p; apart = apart }) (λ n k p. cc) later in
      (v, first, t, s, x)

  -- A context whose computations are all ones over their inputs, and whose skipped features have
  -- none.
  pub record IsTraced (env : Env V P) (c : Context V P) : Type 0 where
    pub at_name :
        (n : String) (k : FeatureComputation V)
        → lookup n c.features ≡ some k
        → (f : FeatureDef) × (lookup n env.by_name ≡ some f) × IsOver env c f k
    pub apart : IsApart c

  IsTracedFrom-fresh :
      (env : Env V P) (c : Context V P) → IsTracedFrom env fresh_context c → IsTraced env c
  unfolding lookup
  IsTracedFrom-fresh env c t = record {
    at_name =
        λ n k h. elim (t.at_name n k h) [ inl e ↦ absurd (none≢some e) | inr traced ↦ traced ];
    apart = t.apart;
  }

  -- What `compute` returns for a new request stands for the computations of its context. The value
  -- of each of these is what the registered UDF makes of the values of other computations of the
  -- context, all of dependencies of the feature. Every source of the feature has its stamp, and every dependency was used, and is not
  -- too old if it is required, or it is an optional one that was skipped and has no computation. The
  -- data time of the computation is at most that of each of these sources and used dependencies, its
  -- newest input time is at least that, and where it says when it is available, it is no earlier than
  -- each of them says.
  pub compute-IsTraced :
      (r : Registry) (env : Env V P) (view : String) (view_version : ℕ) (entity : EntityKey)
      (requested : List String) (results : Dict String (FeatureResult V)) (c : Context V P)
      → compute r env view view_version entity requested fresh_context ≡ ok (results, c)
      → (v : FeatureViewDef) × (find_view_in view view_version r.feature_views ≡ ok v)
        × IsTraced (in_view env v) c
        × StandFor (in_view env v) entity c results
  unfolding lookup
  compute-IsTraced r env view view_version entity requested results c h =
      let (v, first, t, s, _) =
        compute-IsTracedFrom r env view view_version entity requested results fresh_context c
          (λ n p. refl) h in
      (v, first, IsTracedFrom-fresh (in_view env v) c t, s)
