-- ===== src/Events/ChunkRequested.antt =====
-- `BatchChunkRequested` of fs_core/events/models.py.
use clearfeature.Prelude.{
  ℕ, String, ◌≡◌, refl, Bool, false, Option, List, [], ◌∷◌, map, Result, ok, ◌>>=◌, >>=-eq-ok,
  ok-injective,
}
use clearfeature.Domain.{DateTime}
use clearfeature.Json.{text, bool, object, array, Fields, fields, find, texts, items}
use clearfeature.Json.Times.{IsoFormat}
use clearfeature.Json.Reading.{
  JsonError, required, optional, defaulted, read_text, read_nat, read_bool, read_list, read_time,
  iso, read_time-iso,
}
use clearfeature.Json.Nested.{
  nat, value_or_null, read_with, read_list-map, read_list-texts, optional_of-text,
}
use clearfeature.Events.Item.{
  BatchItem, to_dict as item_to_dict, from_dict as item_from_dict, from_dict-to_dict as item_back,
}

abbrev pub batch_chunk_requested : String
batch_chunk_requested = "batch.chunk.requested"

pub record BatchChunkRequested : Type 0 where
  pub batch_job_id : String
  pub chunk_id : String
  pub chunk_index : ℕ
  pub chunk_count : ℕ
  pub correlation_id : String
  pub occurred_at : DateTime
  pub view : String
  pub view_version : ℕ
  pub items : List BatchItem
  pub requested_features : List String
  pub requested_feature_groups : List String
  pub write_online : Bool
  pub total_items : ℕ
  pub manifest_id : Option String
  pub manifest_ids : List String
  pub event_type : String
  pub event_version : ℕ

module _ ⦃times : IsoFormat⦄ where
  unfoldable pub to_dict : BatchChunkRequested → Result JsonError Fields
  to_dict e = do
    occurred_at ← iso e.occurred_at
    ok (
        fields (
          ("event_type", text e.event_type)
          ∷ ("event_version", nat e.event_version)
          ∷ ("batch_job_id", text e.batch_job_id)
          ∷ ("chunk_id", text e.chunk_id)
          ∷ ("chunk_index", nat e.chunk_index)
          ∷ ("chunk_count", nat e.chunk_count)
          ∷ ("correlation_id", text e.correlation_id)
          ∷ ("occurred_at", occurred_at)
          ∷ ("view", text e.view)
          ∷ ("view_version", nat e.view_version)
          ∷ ("items", array (items (map (λ i. object (item_to_dict i)) e.items)))
          ∷ ("requested_features", texts e.requested_features)
          ∷ ("requested_feature_groups", texts e.requested_feature_groups)
          ∷ ("write_online", bool e.write_online)
          ∷ ("total_items", nat e.total_items)
          ∷ ("manifest_id", value_or_null text e.manifest_id)
          ∷ ("manifest_ids", texts e.manifest_ids)
          ∷ []))

  unfoldable pub from_dict : Fields → Result JsonError BatchChunkRequested
  unfolding required optional defaulted
  from_dict data_fields = do
    batch_job_id ← required read_text "batch_job_id" data_fields
    chunk_id ← required read_text "chunk_id" data_fields
    chunk_index ← required read_nat "chunk_index" data_fields
    chunk_count ← required read_nat "chunk_count" data_fields
    correlation_id ← required read_text "correlation_id" data_fields
    occurred_at ← required read_time "occurred_at" data_fields
    view ← required read_text "view" data_fields
    view_version ← required read_nat "view_version" data_fields
    items ← required (read_list (read_with item_from_dict)) "items" data_fields
    requested_features ← defaulted (read_list read_text) "requested_features" [] data_fields
    requested_feature_groups ←
        defaulted (read_list read_text) "requested_feature_groups" [] data_fields
    write_online ← defaulted read_bool "write_online" false data_fields
    total_items ← defaulted read_nat "total_items" 0 data_fields
    manifest_id ← optional read_text "manifest_id" data_fields
    manifest_ids ← defaulted (read_list read_text) "manifest_ids" [] data_fields
    event_type ← defaulted read_text "event_type" batch_chunk_requested data_fields
    event_version ← defaulted read_nat "event_version" 1 data_fields
    ok (record {
      batch_job_id = batch_job_id;
      chunk_id = chunk_id;
      chunk_index = chunk_index;
      chunk_count = chunk_count;
      correlation_id = correlation_id;
      occurred_at = occurred_at;
      view = view;
      view_version = view_version;
      items = items;
      requested_features = requested_features;
      requested_feature_groups = requested_feature_groups;
      write_online = write_online;
      total_items = total_items;
      manifest_id = manifest_id;
      manifest_ids = manifest_ids;
      event_type = event_type;
      event_version = event_version;
    })

  -- Reading what was written gives the value back.
  pub from_dict-to_dict :
      (e : BatchChunkRequested) (j : Fields) → to_dict e ≡ ok j → from_dict j ≡ ok e
  unfolding to_dict from_dict find
  from_dict-to_dict e j written =
      let (occurred_at, occurred_at_written, made) = >>=-eq-ok _ _ written in
      rw
        (
          ← ok-injective made,
          read_time-iso e.occurred_at occurred_at occurred_at_written,
          read_list-map (λ i. object (item_to_dict i)) (read_with item_from_dict) item_back e.items,
          read_list-texts e.requested_features,
          read_list-texts e.requested_feature_groups,
          optional_of-text e.manifest_id,
          read_list-texts e.manifest_ids,
        )
        refl
