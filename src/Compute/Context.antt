-- ===== src/Compute/Context.antt =====
-- fs_core/compute/context.py and udf_registry.py: the caches of one request.
use clearfeature.Prelude.{
  ℕ, String, Bool, true, false, Option, none, some, is_some, List, [], Dict, string_key, lookup,
  insert, Result, ok, err, ◌>>=◌,
}
use clearfeature.Domain.{Availability}

-- The `ValueError`s of engine.py and udf_registry.py, and what a source loader, a UDF or the
-- hashing of its value raises. `out_of_fuel` is no outcome of the program.
pub data ComputeError : Type 0 where
  unknown_view version_mismatch : String → ComputeError
  unknown_feature missing_stamp unknown_udf : String → ComputeError
  dependency_cycle : List String → ComputeError
  no_inputs : ComputeError
  source_failed udf_failed hash_failed : String → ComputeError
  out_of_fuel : ComputeError

pub data Status : Type 0 where
  okay degraded skipped : Status

abbrev pub is_skipped_status : Option Status → Bool
is_skipped_status (some skipped) = true
is_skipped_status _ = false

abbrev pub is_degraded : Status → Bool
is_degraded degraded = true
is_degraded _ = false

pub record FeatureComputation (V : Type 0) : Type 0 where
  pub value : V
  pub data_ts : ℕ
  pub max_input_data_ts : ℕ
  pub value_hash : String
  pub input_fingerprint : String
  pub status : Status
  pub available_at : Option ℕ
  pub availability_source : Option Availability

-- The mutable part of a `RequestContext`; `P` is the type of the payloads.
pub record Context (V P : Type 0) : Type 0 where
  pub sources : Dict String P
  pub features : Dict String (FeatureComputation V)
  pub statuses : Dict String Status

-- A UDF, a loader or a hash raises with a message.
abbrev pub Udf : Type 0 → Type 0 → Type 0
Udf V P = Dict String P → Dict String V → Result String V

-- What code outside raised, as an exception of the engine.
abbrev pub outside :
    {A : Type 0} → (String → ComputeError) → Result String A → Result ComputeError A
outside name (ok a) = ok a
outside name (err message) = err (name message)

module _ {V P : Type 0} where
  abbrev pub fresh_context : Context V P
  fresh_context = record { sources = []; features = []; statuses = [] }

  unfoldable pub get_source :
      (String → Result String P) → String → Context V P → Result ComputeError (P × Context V P)
  unfolding lookup insert
  get_source loader name c = elim (lookup name c.sources) [
    | some payload ↦ ok (payload, c)
    | none ↦ do
      payload ← outside source_failed (loader name)
      ok (payload, record c { sources = insert name payload c.sources })
  ]

  unfoldable pub has_feature : String → Context V P → Bool
  unfolding lookup
  has_feature name c = is_some (lookup name c.features)

  unfoldable pub get_feature : String → Context V P → Option (FeatureComputation V)
  unfolding lookup
  get_feature name c = lookup name c.features

  unfoldable pub cache_feature : String → FeatureComputation V → Context V P → Context V P
  unfolding insert
  cache_feature name computation c = record c {
    features = insert name computation c.features;
    statuses = insert name computation.status c.statuses;
  }

  unfoldable pub is_skipped : String → Context V P → Bool
  unfolding lookup
  is_skipped name c = is_skipped_status (lookup name c.statuses)

  unfoldable pub mark_skipped : String → Context V P → Context V P
  unfolding insert
  mark_skipped name c = record c { statuses = insert name skipped c.statuses }

-- `UdfRegistry.get`
unfoldable pub get_udf :
    {V P : Type 0} → Dict String (Udf V P) → String → Result ComputeError (Udf V P)
unfolding lookup
get_udf udfs id = elim (lookup id udfs) [ none ↦ err (unknown_udf id) | some u ↦ ok u ]
