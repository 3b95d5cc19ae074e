-- ===== src/FeatureStore/Recompute.antt =====
-- `compute_dependent_from_offline` of fs_core/feature_store.py: a dependent feature from the values of
-- its dependencies in the offline history.
use clearfeature.Prelude.{
  ℕ, String, Option, none, some, List, [], ◌∷◌, if◌then◌else◌, str_eq, ℤ, Dict, lookup, string_key,
  Result, ok, err, ◌>>=◌,
}
use clearfeature.Domain.{EntityKey, aware, FeatureResult}
use clearfeature.Offline.{OfflineRecord, OfflineStore}
use clearfeature.Pit.{PitError, get_pit}
use clearfeature.Registry.{FeatureDependency, FeatureDef}
use clearfeature.Registry.States.{RegistryError}
use clearfeature.Registry.Views.{find_view}
use clearfeature.Registry.Validator.{features_by_name}
use clearfeature.Compute.Context.{
  ComputeError, okay, FeatureComputation, Context, cache_feature, fresh_context,
}
use clearfeature.Compute.Resolve.{Env, compute}
use clearfeature.FeatureStore.{Parts}

pub data DependentError : Type 0 where
  no_view : RegistryError → DependentError
  unknown_dependent : String → DependentError
  unknown_dependency : String → DependentError
  not_selected : PitError → DependentError
  not_hashed : String → DependentError
  not_computed : ComputeError → DependentError

abbrev pub or_fail : {E A : Type 0} → (E → DependentError) → Result E A → Result DependentError A
or_fail raised (err problem) = err (raised problem)
or_fail raised (ok a) = ok a

abbrev pub found_feature : DependentError → Option FeatureDef → Result DependentError FeatureDef
found_feature problem none = err problem
found_feature problem (some f) = ok f

-- `return None` where there is nothing to go on with.
abbrev pub or_skip :
    {A B : Type 0}
    → Option A
    → (A → Result DependentError (Option B))
    → Result DependentError (Option B)
or_skip none next = ok none
or_skip (some a) next = next a

abbrev pub or_version : Option ℕ → ℕ → ℕ
or_version none target = target
or_version (some pin) target = pin

module _ {V : Type 0} (hash_value : V → Result String String) where
  -- `recorded or value_hash(value)`: an empty text counts as none.
  abbrev pub hash_or : Option String → V → Result DependentError String
  hash_or none value = or_fail not_hashed (hash_value value)
  hash_or (some recorded) value =
      if str_eq recorded "" then or_fail not_hashed (hash_value value) else ok recorded

  -- The computation that an offline row stands for.
  unfoldable pub computation_of : FeatureResult V → Result DependentError (FeatureComputation V)
  computation_of r = do
    hash ← hash_or r.value_hash r.value
    fingerprint ← hash_or r.input_fingerprint r.value
    ok (record {
      value = r.value;
      data_ts = r.data_ts;
      max_input_data_ts = or_version r.max_input_data_ts r.data_ts;
      value_hash = hash;
      input_fingerprint = fingerprint;
      status = okay;
      available_at = r.available_at;
      availability_source = r.availability_source;
    })

-- The arguments of the call.
pub record DependentCall : Type 0 where
  pub view : String
  pub view_version : ℕ
  pub entity_key : EntityKey
  pub feature_name : String
  pub calc_ts : ℕ
  pub safety_gap : ℤ

module _ {V : Type 0} (c : DependentCall) (offline : OfflineStore V) where
  abbrev pub read_dependency :
      FeatureDependency → FeatureDef → Result DependentError (Option (OfflineRecord V))
  read_dependency d target = or_fail not_selected (
      get_pit c.entity_key d.feature (or_version d.version target.feature_version) c.view
        c.view_version (aware c.calc_ts) c.safety_gap offline)

module _ {V P : Type 0} (hash_value : V → Result String String) (c : DependentCall)
    (by_name : Dict String FeatureDef) (offline : OfflineStore V) where
  -- The loop over the dependencies. `None` where one of them has no eligible row.
  unfoldable pub prefill :
      List FeatureDependency → Context V P → Result DependentError (Option (Context V P))
  prefill [] context = ok (some context)
  prefill (d ∷ deps) context = do
    target ← found_feature (unknown_dependency d.feature) (lookup d.feature by_name)
    row ← read_dependency c offline d target
    or_skip row (λ r. do
      computation ← computation_of hash_value r.result
      prefill deps (cache_feature d.feature computation context))

-- `_no_source`
abbrev pub no_source : {P : Type 0} → String → Result String P
no_source name = err "recompute wave cannot read raw source from offline history"

abbrev pub recompute_env : {V P : Type 0} → Parts V P → DependentCall → Env V P
recompute_env parts c = record {
  by_name = [];
  stamps = [];
  calc_ts = c.calc_ts;
  loader = no_source;
  udfs = parts.udfs;
  hash_value = parts.hash_value;
  fingerprint = parts.fingerprint;
}

-- `compute_dependent_from_offline`
unfoldable pub compute_dependent_from_offline :
    {V P : Type 0}
    → Parts V P
    → DependentCall
    → OfflineStore V
    → Result DependentError (Option (FeatureResult V))
compute_dependent_from_offline parts c offline = do
  view ← or_fail no_view (find_view parts.registry c.view c.view_version)
  feature ←
      found_feature (unknown_dependent c.feature_name)
        (lookup c.feature_name (features_by_name view.features))
  filled ←
      prefill parts.hash_value c (features_by_name view.features) offline feature.deps fresh_context
  or_skip filled (λ context. do
    (results, _) ← or_fail not_computed (
        compute parts.registry (recompute_env parts c) c.view c.view_version c.entity_key
          (c.feature_name ∷ []) context)
    ok (lookup c.feature_name results))
