-- ===== src/Events/OfflineWrite.antt =====
-- `FeatureOfflineWriteRequested` of fs_core/events/models.py: the values for the offline history.
use clearfeature.Prelude.{ℕ, String, ◌≡◌, refl, [], ◌∷◌, Result, ok, ◌>>=◌, >>=-eq-ok, ok-injective}
use clearfeature.Domain.{DateTime}
use clearfeature.Json.{Json, text, object, Fields, fields, find}
use clearfeature.Json.Times.{IsoFormat}
use clearfeature.Json.Reading.{
  JsonError, required, optional, defaulted, read_text, read_nat, read_time, iso, read_time-iso,
}
use clearfeature.Json.Nested.{nat, read_with}
use clearfeature.Prelude.{All}
use clearfeature.Domain.{entity_key}
use clearfeature.Domain.WriteSet.{
  FeatureWriteSet, IsOf, to_dict as write_set_to_dict, from_dict as write_set_from_dict,
  from_dict-to_dict as write_set_back,
}

abbrev pub offline_write_requested : String
offline_write_requested = "feature_write.offline.requested"

pub record FeatureOfflineWriteRequested : Type 0 where
  pub request_id : String
  pub job_id : String
  pub correlation_id : String
  pub occurred_at : DateTime
  pub write_set : FeatureWriteSet Json
  pub event_type : String
  pub event_version : ℕ

module _ ⦃times : IsoFormat⦄ where
  unfoldable pub to_dict : FeatureOfflineWriteRequested → Result JsonError Fields
  to_dict e = do
    occurred_at ← iso e.occurred_at
    ok (
        fields (
          ("event_type", text e.event_type)
          ∷ ("event_version", nat e.event_version)
          ∷ ("request_id", text e.request_id)
          ∷ ("job_id", text e.job_id)
          ∷ ("correlation_id", text e.correlation_id)
          ∷ ("occurred_at", occurred_at)
          ∷ ("write_set", object (write_set_to_dict e.write_set))
          ∷ []))

  unfoldable pub from_dict : Fields → Result JsonError FeatureOfflineWriteRequested
  unfolding required optional defaulted
  from_dict data_fields = do
    request_id ← required read_text "request_id" data_fields
    job_id ← required read_text "job_id" data_fields
    correlation_id ← required read_text "correlation_id" data_fields
    occurred_at ← required read_time "occurred_at" data_fields
    write_set ← required (read_with write_set_from_dict) "write_set" data_fields
    event_type ← defaulted read_text "event_type" offline_write_requested data_fields
    event_version ← defaulted read_nat "event_version" 1 data_fields
    ok (record {
      request_id = request_id;
      job_id = job_id;
      correlation_id = correlation_id;
      occurred_at = occurred_at;
      write_set = write_set;
      event_type = event_type;
      event_version = event_version;
    })

  -- A request to write results offline that was written to JSON is read back as it was, less the
  -- statuses of the nodes, which are not written, provided that its entity key and the references
  -- of its results are ones that their checks accept and that each result is of its entity.
  pub from_dict-to_dict_write :
      (e : FeatureOfflineWriteRequested) (j : Fields)
      → entity_key e.write_set.entity_key.parts ≡ ok e.write_set.entity_key
      → All (λ p. IsOf e.write_set.entity_key p.1) e.write_set.results
      → to_dict e ≡ ok j
      → from_dict j ≡ ok (record e { write_set = record e.write_set { node_statuses = [] } })
  unfolding to_dict from_dict find
  from_dict-to_dict_write e j key_made fine written =
      let (occurred_at, occurred_at_written, made) = >>=-eq-ok _ _ written in
      rw
        (
          ← ok-injective made,
          read_time-iso e.occurred_at occurred_at occurred_at_written,
          write_set_back e.write_set key_made fine,
        )
        refl
