-- ===== src/Compute/Derive.antt =====
-- fs_core/compute/engine.py: the metadata that a computation derives from its own inputs.
use Prim.Native.Nat.{min, max}
use Prim.Native.String.{◌++◌ as append}
use clearfeature.Prelude.{
  ℕ, ◌+◌, ◌*◌, String, Bool, true, false, Option, none, some, List, [], ◌∷◌, ltb, all,
  if◌then◌else◌, Dict, string_key, lookup, Result, ok, err, ◌>>=◌,
}
use clearfeature.Domain.{Availability, source_provided, ingestion_time, SourceStamp, encode_ref}
use clearfeature.Registry.{FeatureDependency, FeatureDef}
use clearfeature.Registry.Features.{ref}
use clearfeature.Compute.Context.{
  ComputeError, missing_stamp, unknown_feature, no_inputs, hash_failed, outside, okay, degraded,
  FeatureComputation,
}

-- What one input contributes: `inputs`, `input_availabilities`, `input_availability_sources`.
pub record Input : Type 0 where
  pub input_id : String
  pub input_ts : ℕ
  pub input_hash : String
  pub available_at : Option ℕ
  pub availability_source : Option Availability

-- `calc_ts - input_data_ts > timedelta(seconds=max_input_age_seconds)`, in microseconds
unfoldable pub edge_is_stale : FeatureDependency → ℕ → ℕ → Bool
edge_is_stale d input_data_ts calc_ts = elim d.max_input_age_seconds [
  | none ↦ false
  | some age ↦ ltb (input_data_ts + age * 1000000) calc_ts
]

abbrev pub stamp_input : String → SourceStamp → Input
stamp_input src stamp = record {
  input_id = append "source:" src;
  input_ts = stamp.report_ts;
  input_hash = stamp.content_hash;
  available_at = stamp.available_at;
  availability_source = stamp.availability_source;
}

abbrev pub dependency_input : {V : Type 0} → FeatureDef → FeatureComputation V → Input
dependency_input f c = record {
  input_id = encode_ref (ref f);
  input_ts = c.data_ts;
  input_hash = c.value_hash;
  available_at = c.available_at;
  availability_source = c.availability_source;
}

unfoldable pub source_inputs :
    Dict String SourceStamp → List String → Result ComputeError (List Input)
unfolding lookup
source_inputs stamps [] = ok []
source_inputs stamps (src ∷ rest) = elim (lookup src stamps) [
  | none ↦ err (missing_stamp src)
  | some stamp ↦ do inputs ← source_inputs stamps rest; ok (stamp_input src stamp ∷ inputs)
]

-- `features_by_name[dep].ref().encode()` of a resolved dependency; the `KeyError` cannot occur.
unfoldable pub dependency_inputs :
    {V : Type 0}
    → Dict String FeatureDef
    → Dict String (FeatureComputation V)
    → Result ComputeError (List Input)
unfolding lookup
dependency_inputs by_name [] = ok []
dependency_inputs by_name ((dep, c) ∷ rest) = elim (lookup dep by_name) [
  | none ↦ err (unknown_feature dep)
  | some f ↦ do inputs ← dependency_inputs by_name rest; ok (dependency_input f c ∷ inputs)
]

unfoldable pub min_ts : ℕ → List Input → ℕ
min_ts best [] = best
min_ts best (i ∷ is) = min_ts (min best i.input_ts) is

unfoldable pub max_ts : ℕ → List Input → ℕ
max_ts best [] = best
max_ts best (i ∷ is) = max_ts (max best i.input_ts) is

-- `max(input_availabilities) if all_available else None`
unfoldable pub latest_available : List Input → Option ℕ
latest_available [] = none
latest_available (i ∷ []) = i.available_at
latest_available (i ∷ j ∷ is) = elim i.available_at [
  | none ↦ none
  | some a ↦ elim (latest_available (j ∷ is)) [ none ↦ none | some b ↦ some (max a b) ]
]

abbrev pub is_trusted : Option Availability → Bool
is_trusted (some source_provided) = true
is_trusted _ = false

unfoldable pub derived_source : List Input → Option Availability
unfolding latest_available
derived_source inputs = elim (latest_available inputs) [
  | none ↦ none
  | some _ ↦
      if all (λ i. is_trusted i.availability_source) inputs
      then some source_provided
      else some ingestion_time
]

-- `hash_value` and `fingerprint` are `value_hash` and `input_fingerprint` of fs_core/hashing.py,
-- over SHA-256 and JSON.
unfoldable pub derive :
    {V : Type 0}
    → (V → Result String String)
    → (List Input → String)
    → V
    → Bool
    → List Input
    → Result ComputeError (FeatureComputation V)
unfolding min_ts max_ts derived_source
derive hash_value fingerprint value is_degraded [] = err no_inputs
derive hash_value fingerprint value is_degraded (i ∷ is) = do
  hash ← outside hash_failed (hash_value value)
  ok (record {
    value = value;
    data_ts = min_ts i.input_ts is;
    max_input_data_ts = max_ts i.input_ts is;
    value_hash = hash;
    input_fingerprint = fingerprint (i ∷ is);
    status = if is_degraded then degraded else okay;
    available_at = latest_available (i ∷ is);
    availability_source = derived_source (i ∷ is);
  })
