-- ===== src/Compute/Fuel.antt =====
-- fs_core/compute/engine.py: what `_resolve` does around its recursive calls uses no fuel.
use clearfeature.Prelude.{
  ℕ, String, inl, inr, Bool, true, false, ◌&&◌, ◌||◌, Option, none, some, List, [], ◌∷◌, ◌++◌, map,
  if◌then◌else◌, Dict, string_key, lookup, insert, Result, ok, err, Avoids, Avoids-ok, Avoids->>=,
  Bool-cases, Option-cases,
}
use clearfeature.Domain.{SourceStamp}
use clearfeature.Registry.{FeatureDependency, FeatureDef}
use clearfeature.Compute.Context.{
  ComputeError, source_failed, udf_failed, hash_failed, out_of_fuel, outside, is_degraded,
  FeatureComputation, Context, Udf, get_source, mark_skipped, get_udf,
}
use clearfeature.Compute.Derive.{Input, edge_is_stale, source_inputs, dependency_inputs, derive}
use clearfeature.Compute.Resolve.{
  Env, Resolved, Edges, stop, go_on, load_sources, resolve_edges, finish, compute_feature,
}

abbrev pub Ends : {A : Type 0} → Result ComputeError A → Type 0
Ends r = Avoids out_of_fuel r

outside-Ends :
    {A : Type 0} (name : String → ComputeError) (r : Result String A)
    → ((s : String) → Ends {A = A} (err (name s)))
    → Ends (outside name r)
outside-Ends name (ok a) raised = Avoids-ok out_of_fuel a
outside-Ends name (err s) raised = raised s

source_inputs-Ends :
    (stamps : Dict String SourceStamp) (ns : List String) → Ends (source_inputs stamps ns)
unfolding source_inputs
source_inputs-Ends stamps [] = Avoids-ok out_of_fuel _
source_inputs-Ends stamps (n ∷ ns) = elim (Option-cases (lookup n stamps)) [
  | inl missing ↦ rw (missing, source_inputs) (record { avoids = λ e. cc })
  | inr (stamp, held) ↦
      rw (held, source_inputs)
        (Avoids->>= out_of_fuel (source_inputs stamps ns) _ (source_inputs-Ends stamps ns)
          (λ inputs. Avoids-ok out_of_fuel _))
]

module _ {V : Type 0} where
  dependency_inputs-Ends :
      (by_name : Dict String FeatureDef) (acc : Dict String (FeatureComputation V))
      → Ends (dependency_inputs by_name acc)
  unfolding dependency_inputs
  dependency_inputs-Ends by_name [] = Avoids-ok out_of_fuel _
  dependency_inputs-Ends by_name ((n, k) ∷ acc) = elim (Option-cases (lookup n by_name)) [
    | inl missing ↦ rw (missing, dependency_inputs) (record { avoids = λ e. cc })
    | inr (f, held) ↦
        rw (held, dependency_inputs)
          (Avoids->>= out_of_fuel (dependency_inputs by_name acc) _
            (dependency_inputs-Ends by_name acc) (λ inputs. Avoids-ok out_of_fuel _))
  ]

  derive-Ends :
      (hash_value : V → Result String String) (fingerprint : List Input → String) (value : V)
      (bad : Bool) (is : List Input)
      → Ends (derive hash_value fingerprint value bad is)
  unfolding derive
  derive-Ends hash_value fingerprint value bad [] = record { avoids = λ e. cc }
  derive-Ends hash_value fingerprint value bad (i ∷ is) =
      Avoids->>= out_of_fuel (outside hash_failed (hash_value value)) _
        (outside-Ends hash_failed (hash_value value) (λ s. record { avoids = λ e. cc }))
        (λ hash. Avoids-ok out_of_fuel _)

module _ {V P : Type 0} where
  get_udf-Ends : (udfs : Dict String (Udf V P)) (id : String) → Ends (get_udf udfs id)
  unfolding get_udf
  get_udf-Ends udfs id = elim (Option-cases (lookup id udfs)) [
    | inl missing ↦ rw (missing, get_udf) (record { avoids = λ e. cc })
    | inr (u, held) ↦ rw (held, get_udf) (Avoids-ok out_of_fuel u)
  ]

  get_source-Ends :
      (loader : String → Result String P) (n : String) (c : Context V P)
      → Ends (get_source loader n c)
  unfolding get_source
  get_source-Ends loader n c = elim (Option-cases (lookup n c.sources)) [
    | inr (p, held) ↦ rw (held, get_source) (Avoids-ok out_of_fuel _)
    | inl absent ↦
        rw (absent, get_source)
          (Avoids->>= out_of_fuel (outside source_failed (loader n)) _
            (outside-Ends source_failed (loader n) (λ s. record { avoids = λ e. cc }))
            (λ p. Avoids-ok out_of_fuel _))
  ]

  load_sources-Ends :
      (loader : String → Result String P) (ns : List String) (acc : Dict String P) (c : Context V P)
      → Ends (load_sources loader ns acc c)
  unfolding load_sources
  load_sources-Ends loader [] acc c = Avoids-ok out_of_fuel _
  load_sources-Ends loader (n ∷ ns) acc c =
      Avoids->>= out_of_fuel (get_source loader n c) _ (get_source-Ends loader n c)
        (λ (p, c'). load_sources-Ends loader ns (insert n p acc) c')

  finish-Ends :
      (env : Env V P) (name : String) (f : FeatureDef) (sources : Dict String P)
      (acc : Dict String (FeatureComputation V)) (degraded : Bool) (c : Context V P)
      → Ends (finish env name f sources acc degraded c)
  unfolding finish
  finish-Ends env name f sources acc degraded c =
      Avoids->>= out_of_fuel (source_inputs env.stamps f.inputs) _
        (source_inputs-Ends env.stamps f.inputs)
        (λ from_sources.
          Avoids->>= out_of_fuel (dependency_inputs env.by_name acc) _
            (dependency_inputs-Ends env.by_name acc)
            (λ from_deps.
              Avoids->>= out_of_fuel (get_udf env.udfs f.udf_name) _
                (get_udf-Ends env.udfs f.udf_name)
                (λ udf.
                  Avoids->>= out_of_fuel
                    (outside udf_failed (udf sources (map (λ p. (p.0, p.1.value)) acc))) _
                    (outside-Ends udf_failed _ (λ s. record { avoids = λ e. cc }))
                    (λ value.
                      Avoids->>= out_of_fuel
                        (derive env.hash_value env.fingerprint value degraded
                          (from_sources ++ from_deps))
                        _
                        (derive-Ends env.hash_value env.fingerprint value degraded
                          (from_sources ++ from_deps))
                        (λ k. Avoids-ok out_of_fuel _)))))

  module _ (go : String → Context V P → Resolved V P)
      (ends : (n : String) (c : Context V P) → Ends (go n c)) (calc_ts : ℕ) (name : String) where
    edge-Ends :
        (d : FeatureDependency) (found : Option (FeatureComputation V)) (c' : Context V P)
        (unused : Result ComputeError (Edges V P))
        (used : FeatureComputation V → Result ComputeError (Edges V P))
        → Ends unused
        → ((k : FeatureComputation V) → Ends (used k))
        → Ends {A = Edges V P} (elim found [
          | none ↦ if d.required then ok (stop (mark_skipped name c')) else unused
          | some k ↦
              if edge_is_stale d k.data_ts calc_ts && d.required
              then ok (stop (mark_skipped name c'))
              else used k
        ])
    edge-Ends d none c' unused used h h' = elim (Bool-cases d.required) [
      | inl e ↦ rw e (Avoids-ok out_of_fuel _)
      | inr e ↦ rw e h
    ]
    edge-Ends d (some k) c' unused used h h' =
        elim (Bool-cases (edge_is_stale d k.data_ts calc_ts && d.required)) [
          | inl e ↦ rw e (Avoids-ok out_of_fuel _)
          | inr e ↦ rw e (h' k)
        ]

    resolve_edges-Ends :
        (ds : List FeatureDependency) (acc : Dict String (FeatureComputation V)) (degraded : Bool)
        (c : Context V P)
        → Ends (resolve_edges go calc_ts name ds acc degraded c)
    unfolding resolve_edges
    resolve_edges-Ends [] acc degraded c = Avoids-ok out_of_fuel _
    resolve_edges-Ends (d ∷ ds) acc degraded c =
        Avoids->>= out_of_fuel (go d.feature c) _ (ends d.feature c) (λ (found, c').
          edge-Ends d found c' _ _ (resolve_edges-Ends ds acc true c') (λ k.
            resolve_edges-Ends ds (insert d.feature k acc)
              (degraded || edge_is_stale d k.data_ts calc_ts || is_degraded k.status) c'))

  after_edges-Ends :
      (env : Env V P) (name : String) (f : FeatureDef) (sources : Dict String P) (out : Edges V P)
      → Ends {A = Option (FeatureComputation V) × Context V P} (elim out [
        | stop c₂ ↦ ok (none, c₂)
        | go_on acc degraded c₂ ↦ finish env name f sources acc degraded c₂
      ])
  after_edges-Ends env name f sources (stop c₂) = Avoids-ok out_of_fuel _
  after_edges-Ends env name f sources (go_on acc degraded c₂) =
      finish-Ends env name f sources acc degraded c₂

  pub compute_feature-Ends :
      (env : Env V P) (go : String → Context V P → Resolved V P) (name : String) (f : FeatureDef)
      (c : Context V P)
      → ((n : String) (c : Context V P) → Ends (go n c))
      → Ends (compute_feature env go name f c)
  unfolding compute_feature
  compute_feature-Ends env go name f c ends =
      Avoids->>= out_of_fuel (load_sources env.loader f.inputs [] c) _
        (load_sources-Ends env.loader f.inputs [] c)
        (λ (sources, c₁).
          Avoids->>= out_of_fuel (resolve_edges go env.calc_ts name f.deps [] false c₁) _
            (resolve_edges-Ends go ends env.calc_ts name f.deps [] false c₁)
            (λ out. after_edges-Ends env name f sources out))
