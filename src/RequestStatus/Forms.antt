-- ===== src/RequestStatus/Forms.antt =====
-- The JSON form of a request's status, fs_core/stores/request_status.py.
use clearfeature.Prelude.{◌≡◌, refl, Option, none, some, [], ◌∷◌, Result, ok, ◌>>=◌}
use clearfeature.Domain.{DateTime}
use clearfeature.Json.{Json, text, object, Fields, fields, find, texts}
use clearfeature.Json.Times.{IsoFormat}
use clearfeature.Json.Reading.{
  JsonError, required, optional, defaulted, optional_of, read_text, read_nat, read_time, read_list,
  read_dict,
}
use clearfeature.Json.Nested.{
  nat, value_or_null, dict_fields, optional_of-text, read_list-texts, read_dict-dict_fields,
}
use clearfeature.RequestStatus.{RequestStatus, post_init, make}

module _ ⦃times : IsoFormat⦄ where
  -- `_iso`
  abbrev pub stamp : DateTime → Json
  stamp t = text (times.isoformat t)

  unfoldable pub to_dict : RequestStatus → Fields
  to_dict r = fields (
      ("request_id", text r.request_id)
      ∷ ("job_id", text r.job_id)
      ∷ ("status", text r.status)
      ∷ ("entity_type", text r.entity_type)
      ∷ ("entity_key", object (dict_fields text r.entity_key))
      ∷ ("view", text r.view)
      ∷ ("view_version", nat r.view_version)
      ∷ ("requested_features", texts r.requested_features)
      ∷ ("requested_feature_groups", texts r.requested_feature_groups)
      ∷ ("online_write_status", value_or_null text r.online_write_status)
      ∷ ("offline_write_status", value_or_null text r.offline_write_status)
      ∷ ("metadata_write_status", value_or_null text r.metadata_write_status)
      ∷ ("created_at", stamp r.created_at)
      ∷ ("updated_at", stamp r.updated_at)
      ∷ ("started_at", value_or_null stamp r.started_at)
      ∷ ("finished_at", value_or_null stamp r.finished_at)
      ∷ ("error", value_or_null text r.error)
      ∷ [])

  unfoldable pub from_dict : Fields → Result JsonError RequestStatus
  unfolding required optional defaulted post_init
  from_dict data_fields = do
    request_id ← required read_text "request_id" data_fields
    job_id ← required read_text "job_id" data_fields
    status ← required read_text "status" data_fields
    entity_type ← required read_text "entity_type" data_fields
    entity_key ← required (read_dict read_text) "entity_key" data_fields
    view ← required read_text "view" data_fields
    view_version ← required read_nat "view_version" data_fields
    requested_features ← defaulted (read_list read_text) "requested_features" [] data_fields
    groups ← defaulted (read_list read_text) "requested_feature_groups" [] data_fields
    online_write_status ← optional read_text "online_write_status" data_fields
    offline_write_status ← optional read_text "offline_write_status" data_fields
    metadata_write_status ← optional read_text "metadata_write_status" data_fields
    created_at ← required read_time "created_at" data_fields
    updated_at ← required read_time "updated_at" data_fields
    started_at ← optional read_time "started_at" data_fields
    finished_at ← optional read_time "finished_at" data_fields
    error ← optional read_text "error" data_fields
    make (record {
      request_id = request_id;
      job_id = job_id;
      status = status;
      entity_type = entity_type;
      entity_key = entity_key;
      view = view;
      view_version = view_version;
      created_at = created_at;
      updated_at = updated_at;
      requested_features = requested_features;
      requested_feature_groups = groups;
      online_write_status = online_write_status;
      offline_write_status = offline_write_status;
      metadata_write_status = metadata_write_status;
      started_at = started_at;
      finished_at = finished_at;
      error = error;
    })

  optional_of-stamp :
      (o : Option DateTime) → optional_of read_time (some (value_or_null stamp o)) ≡ ok o
  optional_of-stamp none = refl
  optional_of-stamp (some t) = rw (times.parses t) refl

  -- A status that its checks accept is read back as it was.
  pub from_dict-to_dict : (r : RequestStatus) → post_init r ≡ ok tt → from_dict (to_dict r) ≡ ok r
  unfolding to_dict from_dict find
  from_dict-to_dict r passed =
      rw
        (
          read_dict-dict_fields text read_text (λ s. refl) r.entity_key,
          read_list-texts r.requested_features,
          read_list-texts r.requested_feature_groups,
          optional_of-text r.online_write_status,
          optional_of-text r.offline_write_status,
          optional_of-text r.metadata_write_status,
          times.parses r.created_at,
          times.parses r.updated_at,
          optional_of-stamp r.started_at,
          optional_of-stamp r.finished_at,
          optional_of-text r.error,
          passed,
        )
        refl
