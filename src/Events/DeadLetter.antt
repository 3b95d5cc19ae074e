-- ===== src/Events/DeadLetter.antt =====
-- `DeadLetterEvent` of fs_core/events/models.py.
use clearfeature.Prelude.{
  ℕ, String, ◌≡◌, refl, Option, [], ◌∷◌, Result, ok, ◌>>=◌, >>=-eq-ok, ok-injective,
}
use clearfeature.Domain.{DateTime}
use clearfeature.Json.{text, Fields, fields, find}
use clearfeature.Json.Times.{IsoFormat}
use clearfeature.Json.Reading.{
  JsonError, required, optional, defaulted, read_text, read_nat, read_time, iso, read_time-iso,
}
use clearfeature.Json.Nested.{nat, value_or_null, optional_of-text, optional_of-nat}

abbrev pub event_dlq : String
event_dlq = "event.dlq"

pub record DeadLetterEvent : Type 0 where
  pub source_topic : String
  pub failure_stage : String
  pub failure_status : String
  pub error : Option String
  pub occurred_at : DateTime
  pub source_payload_b64 : String
  pub original_request_id : Option String
  pub original_job_id : Option String
  pub original_correlation_id : Option String
  pub attempt_count : Option ℕ
  pub max_attempts : Option ℕ
  pub original_event_type : Option String
  pub event_type : String
  pub event_version : ℕ

module _ ⦃times : IsoFormat⦄ where
  unfoldable pub to_dict : DeadLetterEvent → Result JsonError Fields
  to_dict e = do
    occurred_at ← iso e.occurred_at
    ok (
        fields (
          ("event_type", text e.event_type)
          ∷ ("event_version", nat e.event_version)
          ∷ ("source_topic", text e.source_topic)
          ∷ ("failure_stage", text e.failure_stage)
          ∷ ("failure_status", text e.failure_status)
          ∷ ("error", value_or_null text e.error)
          ∷ ("occurred_at", occurred_at)
          ∷ ("source_payload_b64", text e.source_payload_b64)
          ∷ ("original_request_id", value_or_null text e.original_request_id)
          ∷ ("original_job_id", value_or_null text e.original_job_id)
          ∷ ("original_correlation_id", value_or_null text e.original_correlation_id)
          ∷ ("attempt_count", value_or_null nat e.attempt_count)
          ∷ ("max_attempts", value_or_null nat e.max_attempts)
          ∷ ("original_event_type", value_or_null text e.original_event_type)
          ∷ []))

  unfoldable pub from_dict : Fields → Result JsonError DeadLetterEvent
  unfolding required optional defaulted
  from_dict data_fields = do
    source_topic ← required read_text "source_topic" data_fields
    failure_stage ← required read_text "failure_stage" data_fields
    failure_status ← required read_text "failure_status" data_fields
    error ← optional read_text "error" data_fields
    occurred_at ← required read_time "occurred_at" data_fields
    source_payload_b64 ← required read_text "source_payload_b64" data_fields
    original_request_id ← optional read_text "original_request_id" data_fields
    original_job_id ← optional read_text "original_job_id" data_fields
    original_correlation_id ← optional read_text "original_correlation_id" data_fields
    attempt_count ← optional read_nat "attempt_count" data_fields
    max_attempts ← optional read_nat "max_attempts" data_fields
    original_event_type ← optional read_text "original_event_type" data_fields
    event_type ← defaulted read_text "event_type" event_dlq data_fields
    event_version ← defaulted read_nat "event_version" 1 data_fields
    ok (record {
      source_topic = source_topic;
      failure_stage = failure_stage;
      failure_status = failure_status;
      error = error;
      occurred_at = occurred_at;
      source_payload_b64 = source_payload_b64;
      original_request_id = original_request_id;
      original_job_id = original_job_id;
      original_correlation_id = original_correlation_id;
      attempt_count = attempt_count;
      max_attempts = max_attempts;
      original_event_type = original_event_type;
      event_type = event_type;
      event_version = event_version;
    })

  -- Reading what was written gives the value back.
  pub from_dict-to_dict : (e : DeadLetterEvent) (j : Fields) → to_dict e ≡ ok j → from_dict j ≡ ok e
  unfolding to_dict from_dict find
  from_dict-to_dict e j written =
      let (occurred_at, occurred_at_written, made) = >>=-eq-ok _ _ written in
      rw
        (
          ← ok-injective made,
          optional_of-text e.error,
          read_time-iso e.occurred_at occurred_at occurred_at_written,
          optional_of-text e.original_request_id,
          optional_of-text e.original_job_id,
          optional_of-text e.original_correlation_id,
          optional_of-nat e.attempt_count,
          optional_of-nat e.max_attempts,
          optional_of-text e.original_event_type,
        )
        refl
