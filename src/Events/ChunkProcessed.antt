-- ===== src/Events/ChunkProcessed.antt =====
-- `BatchChunkProcessed` of fs_core/events/models.py.
use clearfeature.Prelude.{
  ℕ, String, ◌≡◌, refl, Option, List, [], ◌∷◌, Dict, Result, ok, ◌>>=◌, >>=-eq-ok, ok-injective,
}
use clearfeature.Domain.{DateTime}
use clearfeature.Json.{text, Fields, fields, find, texts}
use clearfeature.Json.Times.{IsoFormat}
use clearfeature.Json.Reading.{
  JsonError, required, optional, defaulted, read_text, read_nat, read_list, read_dict, read_time,
  iso, read_time-iso,
}
use clearfeature.Json.Nested.{
  nat, counts, value_or_null, read_list-texts, optional_of-text, optional_of-counts,
}

abbrev pub batch_chunk_processed : String
batch_chunk_processed = "batch.chunk.processed"

pub record BatchChunkProcessed : Type 0 where
  pub batch_job_id : String
  pub chunk_id : String
  pub chunk_index : ℕ
  pub chunk_count : ℕ
  pub correlation_id : String
  pub processed_at : DateTime
  pub status : String
  pub item_count : ℕ
  pub ok_items : ℕ
  pub failed_items : ℕ
  pub first_errors : List String
  pub manifest_id : Option String
  pub online_refresh_counts : Option (Dict String ℕ)
  pub event_type : String
  pub event_version : ℕ

module _ ⦃times : IsoFormat⦄ where
  unfoldable pub to_dict : BatchChunkProcessed → Result JsonError Fields
  to_dict e = do
    processed_at ← iso e.processed_at
    ok (
        fields (
          ("event_type", text e.event_type)
          ∷ ("event_version", nat e.event_version)
          ∷ ("batch_job_id", text e.batch_job_id)
          ∷ ("chunk_id", text e.chunk_id)
          ∷ ("chunk_index", nat e.chunk_index)
          ∷ ("chunk_count", nat e.chunk_count)
          ∷ ("correlation_id", text e.correlation_id)
          ∷ ("processed_at", processed_at)
          ∷ ("status", text e.status)
          ∷ ("item_count", nat e.item_count)
          ∷ ("ok_items", nat e.ok_items)
          ∷ ("failed_items", nat e.failed_items)
          ∷ ("first_errors", texts e.first_errors)
          ∷ ("manifest_id", value_or_null text e.manifest_id)
          ∷ ("online_refresh_counts", value_or_null counts e.online_refresh_counts)
          ∷ []))

  unfoldable pub from_dict : Fields → Result JsonError BatchChunkProcessed
  unfolding required optional defaulted
  from_dict data_fields = do
    batch_job_id ← required read_text "batch_job_id" data_fields
    chunk_id ← required read_text "chunk_id" data_fields
    chunk_index ← required read_nat "chunk_index" data_fields
    chunk_count ← required read_nat "chunk_count" data_fields
    correlation_id ← required read_text "correlation_id" data_fields
    processed_at ← required read_time "processed_at" data_fields
    status ← required read_text "status" data_fields
    item_count ← required read_nat "item_count" data_fields
    ok_items ← required read_nat "ok_items" data_fields
    failed_items ← required read_nat "failed_items" data_fields
    first_errors ← defaulted (read_list read_text) "first_errors" [] data_fields
    manifest_id ← optional read_text "manifest_id" data_fields
    online_refresh_counts ← optional (read_dict read_nat) "online_refresh_counts" data_fields
    event_type ← defaulted read_text "event_type" batch_chunk_processed data_fields
    event_version ← defaulted read_nat "event_version" 1 data_fields
    ok (record {
      batch_job_id = batch_job_id;
      chunk_id = chunk_id;
      chunk_index = chunk_index;
      chunk_count = chunk_count;
      correlation_id = correlation_id;
      processed_at = processed_at;
      status = status;
      item_count = item_count;
      ok_items = ok_items;
      failed_items = failed_items;
      first_errors = first_errors;
      manifest_id = manifest_id;
      online_refresh_counts = online_refresh_counts;
      event_type = event_type;
      event_version = event_version;
    })

  -- Reading what was written gives the value back.
  pub from_dict-to_dict :
      (e : BatchChunkProcessed) (j : Fields) → to_dict e ≡ ok j → from_dict j ≡ ok e
  unfolding to_dict from_dict find
  from_dict-to_dict e j written =
      let (processed_at, processed_at_written, made) = >>=-eq-ok _ _ written in
      rw
        (
          ← ok-injective made,
          read_time-iso e.processed_at processed_at processed_at_written,
          read_list-texts e.first_errors,
          optional_of-text e.manifest_id,
          optional_of-counts e.online_refresh_counts,
        )
        refl
