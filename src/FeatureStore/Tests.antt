-- ===== src/FeatureStore/Tests.antt =====
-- Runs of fs_core/feature_store.py on the sample view, with texts as values and as payloads.
use clearfeature.Prelude.{
  String, ◌≡◌, refl, true, false, none, some, [], ◌∷◌, pos, lookup, insert, string_key,
  if◌then◌else◌, str_eq, eq_iff, ok, err,
}
use clearfeature.Domain.{FeatureResult, source_provided, encode, encode_ref}
use clearfeature.Dedup.{Values, partition_new_results}
use clearfeature.Offline.{OfflineStore, append_many}
use clearfeature.Pit.{get_pit}
use clearfeature.Raw.Meta.{RawReportMeta}
use clearfeature.Raw.Loader.{load}
use clearfeature.Registry.{Registry}
use clearfeature.Registry.Views.{find_view}
use clearfeature.Registry.Validator.{features_by_name}
use clearfeature.Compute.Context.{Udf}
use clearfeature.Compute.Resolve.{compute}
use clearfeature.FeatureStore.{
  Parts, Stores, ComputeCall, ComputeOutcome, disabled, compute_and_store, compute_write_set,
  expected_types, to_write, persist, disabled_all,
}
use clearfeature.FeatureStore.Rerun.{repeated, compute_and_store_rerun}
use clearfeature.FeatureStore.Recompute.{DependentCall, compute_dependent_from_offline, prefill}
use clearfeature.Samples.{user, sample_registry, risk_view, income, edge_to, feature_of}

abbrev texts : Values String
texts = record { eq = str_eq; token = λ s. s }

abbrev income_udf : Udf String String
income_udf sources deps = elim (lookup "bureau" sources) [ none ↦ err "no bureau" | some n ↦ ok n ]

abbrev ratio_udf : Udf String String
ratio_udf sources deps = elim (lookup "income" deps) [ none ↦ err "no income" | some n ↦ ok n ]

abbrev report : RawReportMeta
report = record {
  report_ref = "rep_1";
  report_type = "bureau";
  entity_type = "user";
  entity_key = user;
  report_ts = 3;
  payload_size_bytes = 12;
  content_hash = "h";
  storage_uri = "raw/1";
  created_at = 9;
  format = "json";
  compression = "gzip";
  available_at = none;
  availability_source = none;
}

abbrev parts : Parts String String
parts = record {
  registry = sample_registry;
  udfs = ("income", income_udf) ∷ ("ratio", ratio_udf) ∷ [];
  get_payload = λ uri. if str_eq uri "raw/1" then some "7" else none;
  get_meta = λ ref. if str_eq ref "rep_1" then some report else none;
  hash_value = λ v. ok v;
  fingerprint = λ inputs. "f";
}

abbrev call : ComputeCall
call = record {
  view = "risk";
  view_version = 2;
  entity_key = user;
  requested_features = "ratio" ∷ [];
  source_refs = ("bureau", "rep_1") ∷ [];
  source_stamps =
      (
        "bureau",
        record {
          report_ts = 3;
          content_hash = "h";
          available_at = some 4;
          availability_source = some source_provided;
        },
      )
      ∷ [];
  calc_ts = 10;
  request_id = none;
  job_id = none;
  run_id = none;
  correlation_id = none;
  write_policy = "online_first";
}

abbrev result : String → FeatureResult String
result name = record {
  ref = record { name = name; version = 1 };
  entity = user;
  value = "7";
  data_ts = 3;
  calc_ts = 10;
  max_input_data_ts = some 3;
  input_fingerprint = some "f";
  value_hash = some "7";
  available_at = some 4;
  availability_source = some source_provided;
  model_uri = none;
  model_digest = none;
  model_output_name = none;
  bundle_digest = none;
}

abbrev empty : Stores String
empty = record { offline = []; online = [] }

abbrev stored : Stores String
stored = record {
  offline = record { view = "risk"; view_version = 2; result = result "ratio" } ∷ [];
  online = [];
}

abbrev outcome : ComputeOutcome String
outcome = record {
  results = ("ratio", result "ratio") ∷ [];
  online_written = ("ratio:v1", disabled) ∷ [];
  duplicates_skipped = 0;
  node_statuses = ("income", "OK") ∷ ("ratio", "OK") ∷ [];
}

-- A backfill: offline only, and without the exact duplicates.
backfill : compute_and_store texts parts false true call empty ≡ ok (stored, outcome)
unfolding compute_and_store compute_write_set compute features_by_name encode_ref lookup insert
    expected_types load to_write persist disabled_all append_many partition_new_results
backfill = refl

compute_and_store_rerun_example :
    compute_and_store texts parts false true call stored ≡ ok (stored, repeated outcome)
compute_and_store_rerun_example =
    compute_and_store_rerun texts parts false call empty stored outcome
      (λ q r _ _ same. (eq_iff q.value r.value).1 same) backfill

abbrev history : OfflineStore String
history = record { view = "risk"; view_version = 2; result = result "income" } ∷ []

abbrev dependent : DependentCall
dependent = record {
  view = "risk";
  view_version = 2;
  entity_key = user;
  feature_name = "ratio";
  calc_ts = 10;
  safety_gap = pos 2;
}

-- A dependency that is optional, and that has no row, skips the recompute as a required one does.
abbrev optional_edge : Registry
optional_edge = record sample_registry {
  feature_views =
      record risk_view {
        features =
            feature_of "ratio" [] (record (edge_to "income") { required = false } ∷ [])
            ∷ income
            ∷ [];
      }
      ∷ [];
}

optional_missing :
    compute_dependent_from_offline (record parts { registry = optional_edge }) dependent []
    ≡ ok none
unfolding compute_dependent_from_offline prefill get_pit encode features_by_name lookup insert
    find_view
optional_missing = refl
