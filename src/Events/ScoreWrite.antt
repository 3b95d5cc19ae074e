-- ===== src/Events/ScoreWrite.antt =====
-- `ModelScoreWriteRequested` of fs_core/events/models.py.
use clearfeature.Prelude.{
  ℕ, String, ◌≡◌, refl, Bool, true, List, [], ◌∷◌, Result, ok, ◌>>=◌, >>=-eq-ok, ok-injective,
}
use clearfeature.Domain.{DateTime}
use clearfeature.Json.{text, bool, object, Fields, fields, find}
use clearfeature.Json.Times.{IsoFormat}
use clearfeature.Json.Reading.{
  JsonError, required, optional, defaulted, read_text, read_nat, read_bool, read_list, read_time,
  iso, read_time-iso,
}
use clearfeature.Json.Nested.{nat, read_with, write_list, read_list-write_list}
use clearfeature.Events.Entity.{
  EntityRef, to_dict as entity_to_dict, from_dict as entity_from_dict,
  from_dict-to_dict as entity_back,
}
use clearfeature.Events.Score.{
  ScoreItem, to_dict as score_to_dict, from_dict as score_from_dict,
  from_dict-to_dict as score_back,
}

abbrev pub model_score_write : String
model_score_write = "model_score.write.requested"

pub record ModelScoreWriteRequested : Type 0 where
  pub score_write_id : String
  pub correlation_id : String
  pub occurred_at : DateTime
  pub entity : EntityRef
  pub view : String
  pub view_version : ℕ
  pub scores : List ScoreItem
  pub idempotency_key : String
  pub write_online : Bool
  pub write_offline : Bool
  pub event_type : String
  pub event_version : ℕ

module _ ⦃times : IsoFormat⦄ where
  unfoldable pub to_dict : ModelScoreWriteRequested → Result JsonError Fields
  to_dict e = do
    occurred_at ← iso e.occurred_at
    scores ← write_list score_to_dict e.scores
    ok (
        fields (
          ("event_type", text e.event_type)
          ∷ ("event_version", nat e.event_version)
          ∷ ("score_write_id", text e.score_write_id)
          ∷ ("correlation_id", text e.correlation_id)
          ∷ ("occurred_at", occurred_at)
          ∷ ("entity", object (entity_to_dict e.entity))
          ∷ ("view", text e.view)
          ∷ ("view_version", nat e.view_version)
          ∷ ("scores", scores)
          ∷ ("idempotency_key", text e.idempotency_key)
          ∷ ("write_online", bool e.write_online)
          ∷ ("write_offline", bool e.write_offline)
          ∷ []))

  unfoldable pub from_dict : Fields → Result JsonError ModelScoreWriteRequested
  unfolding required optional defaulted
  from_dict data_fields = do
    score_write_id ← required read_text "score_write_id" data_fields
    correlation_id ← required read_text "correlation_id" data_fields
    occurred_at ← required read_time "occurred_at" data_fields
    entity ← required (read_with entity_from_dict) "entity" data_fields
    view ← required read_text "view" data_fields
    view_version ← required read_nat "view_version" data_fields
    scores ← required (read_list (read_with score_from_dict)) "scores" data_fields
    idempotency_key ← required read_text "idempotency_key" data_fields
    write_online ← defaulted read_bool "write_online" true data_fields
    write_offline ← defaulted read_bool "write_offline" true data_fields
    event_type ← defaulted read_text "event_type" model_score_write data_fields
    event_version ← defaulted read_nat "event_version" 1 data_fields
    ok (record {
      score_write_id = score_write_id;
      correlation_id = correlation_id;
      occurred_at = occurred_at;
      entity = entity;
      view = view;
      view_version = view_version;
      scores = scores;
      idempotency_key = idempotency_key;
      write_online = write_online;
      write_offline = write_offline;
      event_type = event_type;
      event_version = event_version;
    })

  -- Reading what was written gives the value back.
  pub from_dict-to_dict :
      (e : ModelScoreWriteRequested) (j : Fields) → to_dict e ≡ ok j → from_dict j ≡ ok e
  unfolding to_dict from_dict find
  from_dict-to_dict e j written =
      let (occurred_at, occurred_at_written, after_occurred_at) = >>=-eq-ok _ _ written in
      let (scores, scores_written, made) = >>=-eq-ok _ _ after_occurred_at in
      rw
        (
          ← ok-injective made,
          read_time-iso e.occurred_at occurred_at occurred_at_written,
          entity_back e.entity,
          read_list-write_list score_to_dict score_from_dict score_back e.scores scores
              scores_written,
        )
        refl
