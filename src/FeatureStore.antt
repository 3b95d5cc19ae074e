-- ===== src/FeatureStore.antt =====
-- fs_core/feature_store.py: the compute core over the raw reports, and its results in both stores. The
-- timing metrics are left out.
pub mod Recompute
pub mod Prefilled
pub mod NoLeakage
pub mod Rerun
mod Tests
use clearfeature.Prelude.{
  ℕ, String, Bool, true, false, Option, none, some, List, [], ◌∷◌, map, if◌then◌else◌, Dict, lookup,
  insert, string_key, Result, ok, err, ◌>>=◌,
}
use clearfeature.Domain.{EntityKey, SourceStamp, FeatureResult, encode_ref}
use clearfeature.Domain.WriteSet.{FeatureWriteSet}
use clearfeature.Dedup.{Values, partition_new_results}
use clearfeature.Offline.{OfflineStore, append_many}
use clearfeature.Online.{OnlineStore, write_many}
use clearfeature.WriteGuard.{Outcome}
use clearfeature.Raw.Meta.{RawReportMeta}
use clearfeature.Raw.Loader.{LoadError, no_ref, unknown_ref, wrong_type, no_payload, load}
use clearfeature.Registry.{SourceDef, Registry}
use clearfeature.Compute.Context.{
  ComputeError, Status, okay, degraded, skipped, Udf, Context, fresh_context,
}
use clearfeature.Compute.Derive.{Input}
use clearfeature.Compute.Resolve.{Env, compute}

-- What a `FeatureStore` is made with, its two stores apart: the registry, the UDFs, the resolver's
-- payload store and metadata repository, and the hashes.
pub record Parts (V P : Type 0) : Type 0 where
  pub registry : Registry
  pub udfs : Dict String (Udf V P)
  pub get_payload : String → Option P
  pub get_meta : String → Option RawReportMeta
  pub hash_value : V → Result String String
  pub fingerprint : List Input → String

pub record Stores (V : Type 0) : Type 0 where
  pub offline : OfflineStore V
  pub online : OnlineStore V

-- The arguments of `compute`, and those of `compute_write_set` that it leaves at their defaults.
pub record ComputeCall : Type 0 where
  pub view : String
  pub view_version : ℕ
  pub entity_key : EntityKey
  pub requested_features : List String
  pub source_refs : Dict String String
  pub source_stamps : Dict String SourceStamp
  pub calc_ts : ℕ
  pub request_id : Option String
  pub job_id : Option String
  pub run_id : Option String
  pub correlation_id : Option String
  pub write_policy : String

-- `{s.name: s.report_type for s in registry.sources}`
unfoldable pub expected_types : List SourceDef → Dict String String → Dict String String
unfolding insert
expected_types [] types = types
expected_types (s ∷ sources) types = expected_types sources (insert s.name s.report_type types)

-- The message of the resolver's ValueError, without the names in it.
abbrev pub load_message : LoadError → String
load_message no_ref = "no report_ref bound for source"
load_message unknown_ref = "unknown report_ref"
load_message wrong_type = "unexpected report_type"
load_message no_payload = "no payload stored at storage_uri"

abbrev pub as_message : {P : Type 0} → Result LoadError P → Result String P
as_message (err problem) = err (load_message problem)
as_message (ok payload) = ok payload

abbrev pub status_text : Status → String
status_text okay = "OK"
status_text degraded = "DEGRADED"
status_text skipped = "SKIPPED"

-- `dict(statuses)`
abbrev pub statuses_of : Dict String Status → Dict String String
statuses_of [] = []
statuses_of ((name, status) ∷ rest) = (name, status_text status) ∷ statuses_of rest

-- `results.values()`
abbrev pub result_values : {A : Type 0} → Dict String A → List A
result_values [] = []
result_values ((name, a) ∷ rest) = a ∷ result_values rest

-- What `write` did with one result: the guard's outcome, or "disabled".
pub data Written : Type 0 where
  guarded : Outcome → Written
  disabled : Written

pub record ComputeOutcome (V : Type 0) : Type 0 where
  pub results : Dict String (FeatureResult V)
  pub online_written : Dict String Written
  pub duplicates_skipped : ℕ
  pub node_statuses : Dict String String

abbrev pub guarded_all : Dict String Outcome → Dict String Written
guarded_all [] = []
guarded_all ((name, outcome) ∷ rest) = (name, guarded outcome) ∷ guarded_all rest

module _ {V P : Type 0} where
  -- The loader that the resolver makes for one call.
  abbrev pub request_env : Parts V P → ComputeCall → Env V P
  unfolding expected_types load
  request_env parts c = record {
    by_name = [];
    stamps = c.source_stamps;
    calc_ts = c.calc_ts;
    loader = λ name. as_message (
        load parts.get_payload parts.get_meta c.source_refs
          (some (expected_types parts.registry.sources [])) name);
    udfs = parts.udfs;
    hash_value = parts.hash_value;
    fingerprint = parts.fingerprint;
  }

  -- `compute_write_set`: it writes to no store.
  unfoldable pub compute_write_set :
      Parts V P → ComputeCall → Result ComputeError (FeatureWriteSet V)
  compute_write_set parts c = do
    (results, context) ←
        compute parts.registry (request_env parts c) c.view c.view_version c.entity_key
          c.requested_features fresh_context
    ok (record {
      view = c.view;
      view_version = c.view_version;
      entity_key = c.entity_key;
      results = results;
      source_refs = c.source_refs;
      request_id = c.request_id;
      job_id = c.job_id;
      run_id = c.run_id;
      correlation_id = c.correlation_id;
      write_policy = c.write_policy;
      node_statuses = statuses_of context.statuses;
    })

module _ {V : Type 0} where
  -- `{result.ref.encode(): "disabled" for result in to_write}`
  unfoldable pub disabled_all : List (FeatureResult V) → Dict String Written → Dict String Written
  unfolding insert encode_ref
  disabled_all [] d = d
  disabled_all (r ∷ rs) d = disabled_all rs (insert (encode_ref r.ref) disabled d)

  -- The results to write, and how many are exact duplicates.
  unfoldable pub to_write :
      Values V → Bool → FeatureWriteSet V → OfflineStore V → List (FeatureResult V) × ℕ
  to_write values skip set offline =
      if skip
      then partition_new_results values offline set.view set.view_version
          (result_values set.results)
      else (result_values set.results, 0)

  -- The rest of `compute`: offline first, then online unless `write_online` is off.
  unfoldable pub persist :
      Bool → FeatureWriteSet V → List (FeatureResult V) × ℕ → Stores V → Stores V × ComputeOutcome V
  persist write_online set (new, duplicates) s =
      let offline = append_many set.view set.view_version new s.offline in
      let (online, outcomes) = write_many set.view set.view_version new s.online in
      (
        record { offline = offline; online = if write_online then online else s.online },
        record {
          results = set.results;
          online_written = if write_online then guarded_all outcomes else disabled_all new [];
          duplicates_skipped = duplicates;
          node_statuses = set.node_statuses;
        },
      )

-- `FeatureStore.compute`
unfoldable pub compute_and_store :
    {V P : Type 0}
    → Values V
    → Parts V P
    → Bool
    → Bool
    → ComputeCall
    → Stores V
    → Result ComputeError (Stores V × ComputeOutcome V)
compute_and_store values parts write_online skip_duplicate_offline c s = do
  set ← compute_write_set parts c
  ok (persist write_online set (to_write values skip_duplicate_offline set s.offline) s)
