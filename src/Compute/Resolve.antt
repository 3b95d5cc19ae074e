-- ===== src/Compute/Resolve.antt =====
-- fs_core/compute/engine.py: `_resolve` and `compute`. The recursion is on fuel;
-- Compute/Ends.antt shows that it is enough.
use clearfeature.Prelude.{
  ℕ, zero, suc, String, Bool, true, false, ◌&&◌, ◌||◌, Option, none, some, List, [], ◌∷◌, ◌++◌, map,
  length, ◌==◌, if◌then◌else◌, str_eq, contains, Dict, string_key, lookup, insert, Result, ok, err,
  ◌>>=◌,
}
use clearfeature.Domain.{EntityKey, SourceStamp, FeatureResult}
use clearfeature.Registry.{FeatureDependency, FeatureDef, FeatureViewDef, Registry}
use clearfeature.Registry.Features.{ref}
use clearfeature.Registry.Validator.{features_by_name}
use clearfeature.Compute.Context.{
  ComputeError, unknown_view, version_mismatch, unknown_feature, dependency_cycle, out_of_fuel,
  udf_failed, outside, is_degraded, FeatureComputation, Context, Udf, get_source, get_feature,
  cache_feature, is_skipped, mark_skipped, get_udf,
}
use clearfeature.Compute.Derive.{Input, edge_is_stale, source_inputs, dependency_inputs, derive}

-- What is fixed during one `compute`: the arguments of `_resolve` that it passes on, and the code
-- outside: the source loader, the UDFs and the hashes.
pub record Env (V P : Type 0) : Type 0 where
  pub by_name : Dict String FeatureDef
  pub stamps : Dict String SourceStamp
  pub calc_ts : ℕ
  pub loader : String → Result String P
  pub udfs : Dict String (Udf V P)
  pub hash_value : V → Result String String
  pub fingerprint : List Input → String

-- `None` for a skipped feature, and the context after the call.
abbrev pub Resolved : Type 0 → Type 0 → Type 0
Resolved V P = Result ComputeError (Option (FeatureComputation V) × Context V P)

-- The outcome of the loop over the edges: the feature is skipped, or its computation goes on with
-- `dep_computations` and `degraded`.
pub data Edges (V P : Type 0) : Type 0 where
  stop : Context V P → Edges V P
  go_on : Dict String (FeatureComputation V) → Bool → Context V P → Edges V P

unfoldable pub to_result :
    {V : Type 0} → EntityKey → ℕ → FeatureDef → FeatureComputation V → FeatureResult V
to_result entity calc_ts f c = record {
  ref = ref f;
  entity = entity;
  value = c.value;
  data_ts = c.data_ts;
  calc_ts = calc_ts;
  max_input_data_ts = some c.max_input_data_ts;
  input_fingerprint = some c.input_fingerprint;
  value_hash = some c.value_hash;
  available_at = c.available_at;
  availability_source = c.availability_source;
  model_uri = none;
  model_digest = none;
  model_output_name = none;
  bundle_digest = none;
}

module _ {V P : Type 0} where
  -- `{src: context.get_source(src) for src in feature.inputs}`
  unfoldable pub load_sources :
      (String → Result String P)
      → List String
      → Dict String P
      → Context V P
      → Result ComputeError (Dict String P × Context V P)
  unfolding get_source insert
  load_sources loader [] acc c = ok (acc, c)
  load_sources loader (src ∷ rest) acc c = do
    (payload, c') ← get_source loader src c
    load_sources loader rest (insert src payload acc) c'

  unfoldable pub resolve_edges :
      (String → Context V P → Resolved V P)
      → ℕ
      → String
      → List FeatureDependency
      → Dict String (FeatureComputation V)
      → Bool
      → Context V P
      → Result ComputeError (Edges V P)
  unfolding mark_skipped edge_is_stale insert
  resolve_edges resolve calc_ts name [] acc degraded c = ok (go_on acc degraded c)
  resolve_edges resolve calc_ts name (d ∷ ds) acc degraded c = do
    (found, c') ← resolve d.feature c
    elim found [
      | none ↦
          let rest = resolve_edges resolve calc_ts name ds acc true c' in
          if d.required then ok (stop (mark_skipped name c')) else rest
      | some comp ↦
          let stale = edge_is_stale d comp.data_ts calc_ts in
          let rest =
            resolve_edges resolve calc_ts name ds (insert d.feature comp acc)
              (degraded || stale || is_degraded comp.status) c' in
          if stale && d.required then ok (stop (mark_skipped name c')) else rest
    ]

  -- What `_resolve` does once the edges are resolved.
  unfoldable pub finish :
      Env V P
      → String
      → FeatureDef
      → Dict String P
      → Dict String (FeatureComputation V)
      → Bool
      → Context V P
      → Resolved V P
  unfolding source_inputs dependency_inputs get_udf derive cache_feature
  finish env name f sources acc degraded c = do
    from_sources ← source_inputs env.stamps f.inputs
    from_deps ← dependency_inputs env.by_name acc
    udf ← get_udf env.udfs f.udf_name
    value ← outside udf_failed (udf sources (map (λ p. (p.0, p.1.value)) acc))
    computation ← derive env.hash_value env.fingerprint value degraded (from_sources ++ from_deps)
    ok (some computation, cache_feature name computation c)

  unfoldable pub compute_feature :
      Env V P
      → (String → Context V P → Resolved V P)
      → String
      → FeatureDef
      → Context V P
      → Resolved V P
  unfolding load_sources resolve_edges finish
  compute_feature env resolve name f c = do
    (sources, c₁) ← load_sources env.loader f.inputs [] c
    edges ← resolve_edges resolve env.calc_ts name f.deps [] false c₁
    elim edges [
      | stop c₂ ↦ ok (none, c₂)
      | go_on acc degraded c₂ ↦ finish env name f sources acc degraded c₂
    ]

  -- `visiting` is empty again when a call returns, so each call is given the list it sees.
  unfoldable pub resolve : ℕ → Env V P → List String → String → Context V P → Resolved V P
  unfolding get_feature is_skipped lookup contains compute_feature
  resolve zero env visiting name c = err out_of_fuel
  resolve (suc fuel) env visiting name c = elim (get_feature name c) [
    | some computation ↦ ok (some computation, c)
    | none ↦ elim (is_skipped name c) [
      | true ↦ ok (none, c)
      | false ↦ elim (lookup name env.by_name) [
        | none ↦ err (unknown_feature name)
        | some f ↦ elim (contains visiting name) [
          | true ↦ err (dependency_cycle (visiting ++ name ∷ []))
          | false ↦ compute_feature env (resolve fuel env (visiting ++ name ∷ [])) name f c
        ]
      ]
    ]
  ]

  -- The loop of `compute` over the requested names. A skipped feature leaves no result.
  unfoldable pub compute_all :
      ℕ
      → Env V P
      → EntityKey
      → List String
      → Dict String (FeatureResult V)
      → Context V P
      → Result ComputeError (Dict String (FeatureResult V) × Context V P)
  unfolding resolve lookup insert to_result
  compute_all fuel env entity [] results c = ok (results, c)
  compute_all fuel env entity (name ∷ rest) results c = do
    (found, c') ← resolve fuel env [] name c
    elim found [
      | none ↦ compute_all fuel env entity rest results c'
      | some computation ↦ elim (lookup name env.by_name) [
        | none ↦ err (unknown_feature name)
        | some f ↦
            compute_all fuel env entity rest
              (insert name (to_result entity env.calc_ts f computation) results) c'
      ]
    ]

-- `ComputeCore._find_view`
unfoldable pub find_view_in : String → ℕ → List FeatureViewDef → Result ComputeError FeatureViewDef
find_view_in view version [] = err (unknown_view view)
find_view_in view version (v ∷ vs) = elim (str_eq v.name view) [
  | true ↦ if v.view_version == version then ok v else err (version_mismatch view)
  | false ↦ find_view_in view version vs
]

-- `ComputeCore.compute`, over a context that the caller holds.
unfoldable pub compute :
    {V P : Type 0}
    → Registry
    → Env V P
    → String
    → ℕ
    → EntityKey
    → List String
    → Context V P
    → Result ComputeError (Dict String (FeatureResult V) × Context V P)
unfolding find_view_in features_by_name compute_all
compute r env view view_version entity requested c = do
  v ← find_view_in view view_version r.feature_views
  compute_all (suc (length v.features)) (record env { by_name = features_by_name v.features })
      entity requested [] c
