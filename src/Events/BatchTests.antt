-- ===== src/Events/BatchTests.antt =====
-- Runs of the batch, score and update events of fs_core/events/models.py.
use clearfeature.Prelude.{
  ◌≡◌, refl, true, false, none, some, [], ◌∷◌, ok, err, Result, contains, pos,
}
use clearfeature.Domain.{aware}
use clearfeature.Json.{text, int, Fields, no_fields, fields}
use clearfeature.Json.Tally.{tally}
use clearfeature.Json.Reading.{refused}
use clearfeature.Events.Entity.{EntityRef}
use clearfeature.Events.ComputeCompleted.{
  FeatureComputeCompleted, to_dict as completed_to_dict, from_dict as completed_from_dict,
}
use clearfeature.Events.Updated.{
  FeatureUpdated, post_init, to_dict as updated_to_dict, from_dict as updated_from_dict,
}
use clearfeature.Events.Score.{to_dict as score_to_dict}
use clearfeature.Events.ScoreWrite.{
  ModelScoreWriteRequested, to_dict as scores_to_dict, from_dict as scores_from_dict,
}
use clearfeature.Events.ChunkRequested.{
  BatchChunkRequested, to_dict as chunk_to_dict, from_dict as chunk_from_dict,
}
use clearfeature.Events.ChunkProcessed.{
  BatchChunkProcessed, to_dict as processed_to_dict, from_dict as processed_from_dict,
}
use clearfeature.Events.DeadLetter.{
  DeadLetterEvent, to_dict as letter_to_dict, from_dict as letter_from_dict,
}
use clearfeature.Events.RoundTrips.{from_dict-to_dict_events}

abbrev entity : EntityRef
entity = record { entity_type = "user"; entity_key = ("user_id", "7") ∷ [] }

abbrev chunk : BatchChunkRequested
chunk = record {
  batch_job_id = "job_1";
  chunk_id = "job_1:0";
  chunk_index = 0;
  chunk_count = 1;
  correlation_id = "c";
  occurred_at = aware 5;
  view = "risk";
  view_version = 2;
  items =
      record {
        entity_type = "user";
        entity_key = ("user_id", "7") ∷ [];
        inline_sources = ("bureau", fields (("report_type", text "bureau") ∷ [])) ∷ [];
        source_refs = [];
      }
      ∷ [];
  requested_features = "income" ∷ [];
  requested_feature_groups = [];
  write_online = false;
  total_items = 1;
  manifest_id = none;
  manifest_ids = [];
  event_type = "batch.chunk.requested";
  event_version = 1;
}

abbrev processed : BatchChunkProcessed
processed = record {
  batch_job_id = "job_1";
  chunk_id = "job_1:0";
  chunk_index = 0;
  chunk_count = 1;
  correlation_id = "c";
  processed_at = aware 6;
  status = "completed";
  item_count = 1;
  ok_items = 1;
  failed_items = 0;
  first_errors = [];
  manifest_id = some "m";
  online_refresh_counts = some (("written", 1) ∷ []);
  event_type = "batch.chunk.processed";
  event_version = 1;
}

abbrev scores : ModelScoreWriteRequested
scores = record {
  score_write_id = "s";
  correlation_id = "c";
  occurred_at = aware 5;
  entity = entity;
  view = "risk";
  view_version = 2;
  scores =
      record {
        feature = "score";
        value = int (pos 3);
        data_ts = aware 3;
        calc_ts = aware 4;
        model_name = "m";
        model_version = "1";
        source_request_id = none;
        decision_request_id = some "d";
        context = no_fields;
      }
      ∷ [];
  idempotency_key = "k";
  write_online = true;
  write_offline = false;
  event_type = "model_score.write.requested";
  event_version = 1;
}

abbrev completed : FeatureComputeCompleted
completed = record {
  request_id = "req_1";
  job_id = "job_1";
  entity = entity;
  view = "risk";
  view_version = 2;
  correlation_id = "c";
  occurred_at = aware 5;
  written_features = "income" ∷ [];
  online_write_status = some "written";
  event_type = "feature_compute.completed";
  event_version = 1;
}

abbrev updated : FeatureUpdated
updated = record {
  update_id = "u";
  entity = entity;
  view = "risk";
  view_version = 2;
  feature_name = "income";
  feature_version = 1;
  data_ts = aware 3;
  calc_ts = aware 4;
  source = "batch_worker";
  occurred_at = aware 5;
  max_input_data_ts = some (aware 3);
  input_fingerprint = none;
  value_hash = none;
  run_id = none;
  job_id = none;
  manifest_id = none;
  event_type = "feature_updated";
  event_version = 1;
}

abbrev letter : DeadLetterEvent
letter = record {
  source_topic = "t";
  failure_stage = "parse";
  failure_status = "malformed_json";
  error = none;
  occurred_at = aware 5;
  source_payload_b64 = "e30=";
  original_request_id = none;
  original_job_id = none;
  original_correlation_id = none;
  attempt_count = some 5;
  max_attempts = some 5;
  original_event_type = none;
  event_type = "event.dlq";
  event_version = 1;
}

abbrev value_of : {E A : Type 0} → A → Result E A → A
value_of other (err _) = other
value_of other (ok a) = a

updated_passed : post_init updated ≡ ok tt
unfolding post_init contains
updated_passed = refl

unknown_source : post_init (record updated { source = "somebody" }) ≡ err (refused "source")
unfolding post_init contains
unknown_source = refl

abbrev written : {E : Type 0} → Result E Fields → Fields
written r = value_of no_fields r

from_dict-to_dict_events_example :
    (chunk_from_dict (written (chunk_to_dict chunk)) ≡ ok chunk)
    × (processed_from_dict (written (processed_to_dict processed)) ≡ ok processed)
    × (scores_from_dict (written (scores_to_dict scores)) ≡ ok scores)
    × (completed_from_dict (written (completed_to_dict completed)) ≡ ok completed)
    × (updated_from_dict (written (updated_to_dict updated)) ≡ ok updated)
    × (letter_from_dict (written (letter_to_dict letter)) ≡ ok letter)
unfolding chunk_to_dict processed_to_dict scores_to_dict completed_to_dict updated_to_dict
    letter_to_dict score_to_dict
from_dict-to_dict_events_example =
    from_dict-to_dict_events chunk processed scores completed updated letter _ _ _ _ _ _ refl refl
      refl refl updated_passed refl refl
