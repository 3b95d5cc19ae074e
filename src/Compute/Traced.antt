-- ===== src/Compute/Traced.antt =====
-- fs_core/compute/engine.py: every computation in the context of a request is one over inputs that
-- are there: the stamps of its sources and the computations of its dependencies.
use clearfeature.Prelude.{
  ℕ, String, ◌≡◌, sym, ap, ◌∙◌, ◌⊎◌, inl, inr, true, false, Option, none, some, List, Dict, map, In,
  All, All-map, string_key, lookup, ok,
}
use clearfeature.Registry.{FeatureDependency, FeatureDef}
use clearfeature.Domain.{SourceStamp}
use clearfeature.Compute.Context.{
  FeatureComputation, Context, Udf, get_udf, is_skipped_status, is_skipped,
}
use clearfeature.Compute.Derive.{edge_is_stale}
use clearfeature.Compute.Bounds.{Bounds}
use clearfeature.Compute.Resolve.{Env, Resolved}

-- A dependency has the name.
abbrev pub IsNamed : List FeatureDependency → String → Type 0
IsNamed ds n = (d : FeatureDependency) × In d ds × (d.feature ≡ n)

module _ {V P : Type 0} where
  abbrev pub Extends : Context V P → Context V P → Type 0
  Extends c c' =
      (n : String) (k : FeatureComputation V)
      → lookup n c.features ≡ some k
      → lookup n c'.features ≡ some k

  abbrev pub Skips : Context V P → Context V P → Type 0
  Skips c c' = (n : String) → is_skipped n c ≡ true → is_skipped n c' ≡ true

  -- The names being visited are neither computed nor skipped meanwhile.
  abbrev pub Keeps : List String → Context V P → Context V P → Type 0
  Keeps visiting c c' =
      (v : String)
      → In v visiting
      → (lookup v c'.features ≡ lookup v c.features) × (is_skipped v c' ≡ is_skipped v c)

  -- A skipped feature has no computation.
  abbrev pub IsApart : Context V P → Type 0
  IsApart c = (n : String) → is_skipped n c ≡ true → lookup n c.features ≡ none

  -- The edge led to a computation of the context, which is fresh enough where it has to be.
  abbrev pub Used : ℕ → Context V P → FeatureDependency → FeatureComputation V → Type 0
  Used calc_ts c d k =
      (lookup d.feature c.features ≡ some k)
      × (d.required ≡ true → edge_is_stale d k.data_ts calc_ts ≡ false)

  -- `k` is a computation of the feature `f` over what the context holds. Its value is what the UDF
  -- makes of the values in `used`, all of them of computations of dependencies in the context. A
  -- dependency that was not used is an optional one that was skipped.
  pub record IsOver (env : Env V P) (c : Context V P) (f : FeatureDef) (k : FeatureComputation V)
      : Type 0 where
    pub sources : Dict String P
    pub used : Dict String (FeatureComputation V)
    pub udf : Udf V P
    pub registered : get_udf env.udfs f.udf_name ≡ ok udf
    pub valued : udf sources (map (λ p. (p.0, p.1.value)) used) ≡ ok k.value
    pub held :
        (n : String) (j : FeatureComputation V) → In (n, j) used → lookup n c.features ≡ some j
    pub named : (n : String) (j : FeatureComputation V) → In (n, j) used → IsNamed f.deps n
    pub from_sources :
        All
          (λ src.
            (stamp : SourceStamp) × (lookup src env.stamps ≡ some stamp)
            × Bounds k stamp.report_ts stamp.available_at)
          f.inputs
    pub from_dependencies :
        All
          (λ d.
            ((j : FeatureComputation V) × Used env.calc_ts c d j
              × In (d.feature, j) used
              × Bounds k j.data_ts j.available_at)
            ⊎ ((d.required ≡ false) × (is_skipped d.feature c ≡ true)))
          f.deps

  -- Every computation of `c` that was not there at the beginning, in `base`.
  pub record IsTracedFrom (env : Env V P) (base c : Context V P) : Type 0 where
    pub at_name :
        (n : String) (k : FeatureComputation V)
        → lookup n c.features ≡ some k
        → (lookup n base.features ≡ some k)
          ⊎ ((f : FeatureDef) × (lookup n env.by_name ≡ some f) × IsOver env c f k)
    pub apart : IsApart c

  pub IsOver-Extends :
      (env : Env V P) (c c' : Context V P) (f : FeatureDef) (k : FeatureComputation V)
      → Extends c c'
      → Skips c c'
      → IsOver env c f k
      → IsOver env c' f k
  IsOver-Extends env c c' f k x y o = record {
    sources = o.sources;
    used = o.used;
    udf = o.udf;
    registered = o.registered;
    valued = o.valued;
    held = λ n j i. x n j (o.held n j i);
    named = o.named;
    from_sources = o.from_sources;
    from_dependencies =
        All-map f.deps
          (λ d h. elim h [
            | inl (j, (held, fresh), i, b) ↦ inl (j, (x d.feature j held, fresh), i, b)
            | inr (optional, skipped) ↦ inr (optional, y d.feature skipped)
          ])
          o.from_dependencies;
  }

  -- Contexts with the same computations and skipped features.
  pub record IsSame (c c' : Context V P) : Type 0 where
    pub features : c.features ≡ c'.features
    pub statuses : c.statuses ≡ c'.statuses

  pub IsSame-is_skipped :
      (c c' : Context V P) → IsSame c c' → (n : String) → is_skipped n c ≡ is_skipped n c'
  unfolding is_skipped
  IsSame-is_skipped c c' e n = ap (λ d. is_skipped_status (lookup n d)) e.statuses

  pub IsTracedFrom-same :
      (env : Env V P) (base c c' : Context V P)
      → IsSame c c'
      → IsTracedFrom env base c
      → IsTracedFrom env base c'
  IsTracedFrom-same env base c c' e t = record {
    at_name = λ n k h. elim (t.at_name n k (ap (lookup n) e.features ∙ h)) [
      | inl there ↦ inl there
      | inr (f, known, o) ↦ inr (
        f,
        known,
        IsOver-Extends env c c' f k (λ m j p. sym (ap (lookup m) e.features) ∙ p)
            (λ m p. sym (IsSame-is_skipped c c' e m) ∙ p) o,
      )
    ];
    apart = λ n h. sym (ap (lookup n) e.features) ∙ t.apart n (IsSame-is_skipped c c' e n ∙ h);
  }

  pub record Entered (env : Env V P) (base : Context V P) (visiting : List String) (n : String)
      (c : Context V P) (found : Option (FeatureComputation V)) (c' : Context V P) : Type 0 where
    pub traced : IsTracedFrom env base c'
    pub extends : Extends c c'
    pub skips : Skips c c'
    pub keeps : Keeps visiting c c'
    pub stored : (k : FeatureComputation V) → found ≡ some k → lookup n c'.features ≡ some k
    pub passed : found ≡ none → is_skipped n c' ≡ true

  -- What is asked of the recursive call.
  abbrev pub Sound :
      Env V P → Context V P → List String → (String → Context V P → Resolved V P) → Type 0
  Sound env base visiting go =
      (n : String) (c : Context V P) (found : Option (FeatureComputation V)) (c' : Context V P)
      → IsTracedFrom env base c
      → go n c ≡ ok (found, c')
      → Entered env base visiting n c found c'

  -- A call that left the context as it was.
  pub Entered-same :
      (env : Env V P) (base : Context V P) (visiting : List String) (n : String)
      (c c' : Context V P) (found : Option (FeatureComputation V))
      → IsTracedFrom env base c
      → IsSame c c'
      → ((k : FeatureComputation V) → found ≡ some k → lookup n c.features ≡ some k)
      → (found ≡ none → is_skipped n c ≡ true)
      → Entered env base visiting n c found c'
  Entered-same env base visiting n c c' found t e s p = record {
    traced = IsTracedFrom-same env base c c' e t;
    extends = λ m k h. sym (ap (lookup m) e.features) ∙ h;
    skips = λ m h. sym (IsSame-is_skipped c c' e m) ∙ h;
    keeps = λ v i. (sym (ap (lookup v) e.features), sym (IsSame-is_skipped c c' e v));
    stored = λ k h. sym (ap (lookup n) e.features) ∙ s k h;
    passed = λ h. sym (IsSame-is_skipped c c' e n) ∙ p h;
  }
