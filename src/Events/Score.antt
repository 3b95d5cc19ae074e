-- ===== src/Events/Score.antt =====
-- `ScoreItem` of fs_core/events/models.py.
use clearfeature.Prelude.{
  String, ◌≡◌, refl, Option, [], ◌∷◌, Result, ok, ◌>>=◌, >>=-eq-ok, ok-injective,
}
use clearfeature.Domain.{DateTime}
use clearfeature.Json.{Json, text, object, Fields, no_fields, fields, find}
use clearfeature.Json.Times.{IsoFormat}
use clearfeature.Json.Reading.{
  JsonError, required, optional, defaulted, read_text, read_value, read_object, read_time, iso,
  read_time-iso,
}
use clearfeature.Json.Nested.{value_or_null, optional_of-text}

pub record ScoreItem : Type 0 where
  pub feature : String
  pub value : Json
  pub data_ts : DateTime
  pub calc_ts : DateTime
  pub model_name : String
  pub model_version : String
  pub source_request_id : Option String
  pub decision_request_id : Option String
  pub context : Fields

module _ ⦃times : IsoFormat⦄ where
  unfoldable pub to_dict : ScoreItem → Result JsonError Fields
  to_dict e = do
    data_ts ← iso e.data_ts
    calc_ts ← iso e.calc_ts
    ok (
        fields (
          ("feature", text e.feature)
          ∷ ("value", e.value)
          ∷ ("data_ts", data_ts)
          ∷ ("calc_ts", calc_ts)
          ∷ ("model_name", text e.model_name)
          ∷ ("model_version", text e.model_version)
          ∷ ("source_request_id", value_or_null text e.source_request_id)
          ∷ ("decision_request_id", value_or_null text e.decision_request_id)
          ∷ ("context", object e.context)
          ∷ []))

  unfoldable pub from_dict : Fields → Result JsonError ScoreItem
  unfolding required optional defaulted
  from_dict data_fields = do
    feature ← required read_text "feature" data_fields
    value ← required read_value "value" data_fields
    data_ts ← required read_time "data_ts" data_fields
    calc_ts ← required read_time "calc_ts" data_fields
    model_name ← required read_text "model_name" data_fields
    model_version ← required read_text "model_version" data_fields
    source_request_id ← optional read_text "source_request_id" data_fields
    decision_request_id ← optional read_text "decision_request_id" data_fields
    context ← defaulted read_object "context" no_fields data_fields
    ok (record {
      feature = feature;
      value = value;
      data_ts = data_ts;
      calc_ts = calc_ts;
      model_name = model_name;
      model_version = model_version;
      source_request_id = source_request_id;
      decision_request_id = decision_request_id;
      context = context;
    })

  -- Reading what was written gives the value back.
  pub from_dict-to_dict : (e : ScoreItem) (j : Fields) → to_dict e ≡ ok j → from_dict j ≡ ok e
  unfolding to_dict from_dict find
  from_dict-to_dict e j written =
      let (data_ts, data_ts_written, after_data_ts) = >>=-eq-ok _ _ written in
      let (calc_ts, calc_ts_written, made) = >>=-eq-ok _ _ after_data_ts in
      rw
        (
          ← ok-injective made,
          read_time-iso e.data_ts data_ts data_ts_written,
          read_time-iso e.calc_ts calc_ts calc_ts_written,
          optional_of-text e.source_request_id,
          optional_of-text e.decision_request_id,
        )
        refl
