-- ===== src/Events/ComputeCompleted.antt =====
-- `FeatureComputeCompleted` of fs_core/events/models.py.
use clearfeature.Prelude.{
  ℕ, String, ◌≡◌, refl, Option, List, [], ◌∷◌, Result, ok, ◌>>=◌, >>=-eq-ok, ok-injective,
}
use clearfeature.Domain.{DateTime}
use clearfeature.Json.{text, object, Fields, fields, find, texts}
use clearfeature.Json.Times.{IsoFormat}
use clearfeature.Json.Reading.{
  JsonError, required, optional, defaulted, read_text, read_nat, read_list, read_time, iso,
  read_time-iso,
}
use clearfeature.Json.Nested.{nat, value_or_null, read_with, read_list-texts, optional_of-text}
use clearfeature.Events.Entity.{
  EntityRef, to_dict as entity_to_dict, from_dict as entity_from_dict,
  from_dict-to_dict as entity_back,
}

abbrev pub feature_compute_completed : String
feature_compute_completed = "feature_compute.completed"

pub record FeatureComputeCompleted : Type 0 where
  pub request_id : String
  pub job_id : String
  pub entity : EntityRef
  pub view : String
  pub view_version : ℕ
  pub correlation_id : String
  pub occurred_at : DateTime
  pub written_features : List String
  pub online_write_status : Option String
  pub event_type : String
  pub event_version : ℕ

module _ ⦃times : IsoFormat⦄ where
  unfoldable pub to_dict : FeatureComputeCompleted → Result JsonError Fields
  to_dict e = do
    occurred_at ← iso e.occurred_at
    ok (
        fields (
          ("event_type", text e.event_type)
          ∷ ("event_version", nat e.event_version)
          ∷ ("request_id", text e.request_id)
          ∷ ("job_id", text e.job_id)
          ∷ ("entity", object (entity_to_dict e.entity))
          ∷ ("view", text e.view)
          ∷ ("view_version", nat e.view_version)
          ∷ ("written_features", texts e.written_features)
          ∷ ("online_write_status", value_or_null text e.online_write_status)
          ∷ ("correlation_id", text e.correlation_id)
          ∷ ("occurred_at", occurred_at)
          ∷ []))

  unfoldable pub from_dict : Fields → Result JsonError FeatureComputeCompleted
  unfolding required optional defaulted
  from_dict data_fields = do
    request_id ← required read_text "request_id" data_fields
    job_id ← required read_text "job_id" data_fields
    entity ← required (read_with entity_from_dict) "entity" data_fields
    view ← required read_text "view" data_fields
    view_version ← required read_nat "view_version" data_fields
    correlation_id ← required read_text "correlation_id" data_fields
    occurred_at ← required read_time "occurred_at" data_fields
    written_features ← defaulted (read_list read_text) "written_features" [] data_fields
    online_write_status ← optional read_text "online_write_status" data_fields
    event_type ← defaulted read_text "event_type" feature_compute_completed data_fields
    event_version ← defaulted read_nat "event_version" 1 data_fields
    ok (record {
      request_id = request_id;
      job_id = job_id;
      entity = entity;
      view = view;
      view_version = view_version;
      correlation_id = correlation_id;
      occurred_at = occurred_at;
      written_features = written_features;
      online_write_status = online_write_status;
      event_type = event_type;
      event_version = event_version;
    })

  -- Reading what was written gives the value back.
  pub from_dict-to_dict :
      (e : FeatureComputeCompleted) (j : Fields) → to_dict e ≡ ok j → from_dict j ≡ ok e
  unfolding to_dict from_dict find
  from_dict-to_dict e j written =
      let (occurred_at, occurred_at_written, made) = >>=-eq-ok _ _ written in
      rw
        (
          ← ok-injective made,
          entity_back e.entity,
          read_time-iso e.occurred_at occurred_at occurred_at_written,
          read_list-texts e.written_features,
          optional_of-text e.online_write_status,
        )
        refl
