-- ===== src/Events/Updated.antt =====
-- `FeatureUpdated` of fs_core/events/models.py.
use clearfeature.Prelude.{
  ℕ, String, ◌≡◌, refl, Option, none, some, List, [], ◌∷◌, Result, ok, err, ◌>>=◌, ◌>>◌, >>=-eq-ok,
  ok-injective, reject_if,
}
use clearfeature.Domain.{DateTime, naive, aware}
use clearfeature.Json.{text, object, Fields, fields, find}
use clearfeature.Json.Times.{IsoFormat}
use clearfeature.Json.Reading.{
  JsonError, naive_time, refused, required, optional, defaulted, read_text, read_nat, read_time,
  iso, iso_or_null, read_time-iso, optional_of-iso,
}
use clearfeature.Json.Nested.{nat, value_or_null, read_with, optional_of-text}
use clearfeature.Events.Entity.{
  EntityRef, to_dict as entity_to_dict, from_dict as entity_from_dict,
  from_dict-to_dict as entity_back,
}
use clearfeature.Prelude.{contains, not}

abbrev pub feature_updated : String
feature_updated = "feature_updated"

pub record FeatureUpdated : Type 0 where
  pub update_id : String
  pub entity : EntityRef
  pub view : String
  pub view_version : ℕ
  pub feature_name : String
  pub feature_version : ℕ
  pub data_ts : DateTime
  pub calc_ts : DateTime
  pub source : String
  pub occurred_at : DateTime
  pub max_input_data_ts : Option DateTime
  pub input_fingerprint : Option String
  pub value_hash : Option String
  pub run_id : Option String
  pub job_id : Option String
  pub manifest_id : Option String
  pub event_type : String
  pub event_version : ℕ

-- `FEATURE_UPDATE_SOURCES`
abbrev pub feature_update_sources : List String
feature_update_sources =
    "offline_writer" ∷ "batch_worker" ∷ "dwh_import" ∷ "table_import" ∷ "recompute_wave" ∷ []

abbrev pub require_iso : DateTime → Result JsonError (Unit {0})
require_iso (naive _) = err naive_time
require_iso (aware _) = ok tt

abbrev pub require_iso? : Option DateTime → Result JsonError (Unit {0})
require_iso? none = ok tt
require_iso? (some t) = require_iso t

-- `__post_init__`
unfoldable pub post_init : FeatureUpdated → Result JsonError (Unit {0})
unfolding contains
post_init e = do
  reject_if (not (contains feature_update_sources e.source)) (refused "source")
  require_iso e.data_ts
  require_iso e.calc_ts
  require_iso? e.max_input_data_ts

unfoldable pub checked : FeatureUpdated → Result JsonError FeatureUpdated
unfolding post_init
checked e = do post_init e; ok e

module _ ⦃times : IsoFormat⦄ where
  unfoldable pub to_dict : FeatureUpdated → Result JsonError Fields
  to_dict e = do
    data_ts ← iso e.data_ts
    calc_ts ← iso e.calc_ts
    max_input_data_ts ← iso_or_null e.max_input_data_ts
    occurred_at ← iso e.occurred_at
    ok (
        fields (
          ("event_type", text e.event_type)
          ∷ ("event_version", nat e.event_version)
          ∷ ("update_id", text e.update_id)
          ∷ ("entity", object (entity_to_dict e.entity))
          ∷ ("view", text e.view)
          ∷ ("view_version", nat e.view_version)
          ∷ ("feature_name", text e.feature_name)
          ∷ ("feature_version", nat e.feature_version)
          ∷ ("data_ts", data_ts)
          ∷ ("calc_ts", calc_ts)
          ∷ ("max_input_data_ts", max_input_data_ts)
          ∷ ("input_fingerprint", value_or_null text e.input_fingerprint)
          ∷ ("value_hash", value_or_null text e.value_hash)
          ∷ ("run_id", value_or_null text e.run_id)
          ∷ ("job_id", value_or_null text e.job_id)
          ∷ ("manifest_id", value_or_null text e.manifest_id)
          ∷ ("source", text e.source)
          ∷ ("occurred_at", occurred_at)
          ∷ []))

  -- The arguments that `from_dict` reads.
  unfoldable pub arguments : Fields → Result JsonError FeatureUpdated
  unfolding required optional defaulted
  arguments data_fields = do
    update_id ← required read_text "update_id" data_fields
    entity ← required (read_with entity_from_dict) "entity" data_fields
    view ← required read_text "view" data_fields
    view_version ← required read_nat "view_version" data_fields
    feature_name ← required read_text "feature_name" data_fields
    feature_version ← required read_nat "feature_version" data_fields
    data_ts ← required read_time "data_ts" data_fields
    calc_ts ← required read_time "calc_ts" data_fields
    source ← required read_text "source" data_fields
    occurred_at ← required read_time "occurred_at" data_fields
    max_input_data_ts ← optional read_time "max_input_data_ts" data_fields
    input_fingerprint ← optional read_text "input_fingerprint" data_fields
    value_hash ← optional read_text "value_hash" data_fields
    run_id ← optional read_text "run_id" data_fields
    job_id ← optional read_text "job_id" data_fields
    manifest_id ← optional read_text "manifest_id" data_fields
    event_type ← defaulted read_text "event_type" feature_updated data_fields
    event_version ← defaulted read_nat "event_version" 1 data_fields
    ok (record {
      update_id = update_id;
      entity = entity;
      view = view;
      view_version = view_version;
      feature_name = feature_name;
      feature_version = feature_version;
      data_ts = data_ts;
      calc_ts = calc_ts;
      source = source;
      occurred_at = occurred_at;
      max_input_data_ts = max_input_data_ts;
      input_fingerprint = input_fingerprint;
      value_hash = value_hash;
      run_id = run_id;
      job_id = job_id;
      manifest_id = manifest_id;
      event_type = event_type;
      event_version = event_version;
    })

  unfoldable pub from_dict : Fields → Result JsonError FeatureUpdated
  unfolding arguments checked
  from_dict data_fields = do e ← arguments data_fields; checked e

  -- Reading what was written gives the value back.
  pub from_dict-to_dict :
      (e : FeatureUpdated) (j : Fields)
      → post_init e ≡ ok tt
      → to_dict e ≡ ok j
      → from_dict j ≡ ok e
  unfolding to_dict from_dict find checked
  from_dict-to_dict e j passed written =
      let (data_ts, data_ts_written, after_data_ts) = >>=-eq-ok _ _ written in
      let (calc_ts, calc_ts_written, after_calc_ts) = >>=-eq-ok _ _ after_data_ts in
      let (max_input_data_ts, max_input_data_ts_written, after_max_input_data_ts) =
        >>=-eq-ok _ _ after_calc_ts in
      let (occurred_at, occurred_at_written, made) = >>=-eq-ok _ _ after_max_input_data_ts in
      rw
        (
          ← ok-injective made,
          entity_back e.entity,
          read_time-iso e.data_ts data_ts data_ts_written,
          read_time-iso e.calc_ts calc_ts calc_ts_written,
          read_time-iso e.occurred_at occurred_at occurred_at_written,
          optional_of-iso e.max_input_data_ts max_input_data_ts max_input_data_ts_written,
          optional_of-text e.input_fingerprint,
          optional_of-text e.value_hash,
          optional_of-text e.run_id,
          optional_of-text e.job_id,
          optional_of-text e.manifest_id,
          passed,
        )
        refl
