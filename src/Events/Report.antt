-- ===== src/Events/Report.antt =====
-- `ReportDescriptor` of fs_core/events/models.py.
use clearfeature.Prelude.{
  ℕ, String, ◌≡◌, refl, Option, [], ◌∷◌, Result, ok, ◌>>=◌, >>=-eq-ok, ok-injective,
}
use clearfeature.Domain.{DateTime}
use clearfeature.Json.{text, Fields, fields, find}
use clearfeature.Json.Times.{IsoFormat}
use clearfeature.Json.Reading.{
  JsonError, required, optional, defaulted, read_text, read_nat, read_time, iso, iso_or_null,
  read_time-iso, optional_of-iso,
}
use clearfeature.Json.Nested.{nat}

pub record ReportDescriptor : Type 0 where
  pub report_ref : String
  pub source_name : String
  pub report_type : String
  pub schema_version : String
  pub report_ts : DateTime
  pub object_key : String
  pub content_hash : String
  pub size_bytes : ℕ
  pub compression : String
  pub format : String
  pub available_at : Option DateTime

module _ ⦃times : IsoFormat⦄ where
  unfoldable pub to_dict : ReportDescriptor → Result JsonError Fields
  to_dict e = do
    report_ts ← iso e.report_ts
    available_at ← iso_or_null e.available_at
    ok (
        fields (
          ("report_ref", text e.report_ref)
          ∷ ("source_name", text e.source_name)
          ∷ ("report_type", text e.report_type)
          ∷ ("schema_version", text e.schema_version)
          ∷ ("report_ts", report_ts)
          ∷ ("object_key", text e.object_key)
          ∷ ("content_hash", text e.content_hash)
          ∷ ("size_bytes", nat e.size_bytes)
          ∷ ("compression", text e.compression)
          ∷ ("format", text e.format)
          ∷ ("available_at", available_at)
          ∷ []))

  unfoldable pub from_dict : Fields → Result JsonError ReportDescriptor
  unfolding required optional defaulted
  from_dict data_fields = do
    report_ref ← required read_text "report_ref" data_fields
    source_name ← required read_text "source_name" data_fields
    report_type ← required read_text "report_type" data_fields
    schema_version ← required read_text "schema_version" data_fields
    report_ts ← required read_time "report_ts" data_fields
    object_key ← required read_text "object_key" data_fields
    content_hash ← required read_text "content_hash" data_fields
    size_bytes ← required read_nat "size_bytes" data_fields
    compression ← required read_text "compression" data_fields
    format ← required read_text "format" data_fields
    available_at ← optional read_time "available_at" data_fields
    ok (record {
      report_ref = report_ref;
      source_name = source_name;
      report_type = report_type;
      schema_version = schema_version;
      report_ts = report_ts;
      object_key = object_key;
      content_hash = content_hash;
      size_bytes = size_bytes;
      compression = compression;
      format = format;
      available_at = available_at;
    })

  -- Reading what was written gives the value back.
  pub from_dict-to_dict :
      (e : ReportDescriptor) (j : Fields) → to_dict e ≡ ok j → from_dict j ≡ ok e
  unfolding to_dict from_dict find
  from_dict-to_dict e j written =
      let (report_ts, report_ts_written, after_report_ts) = >>=-eq-ok _ _ written in
      let (available_at, available_at_written, made) = >>=-eq-ok _ _ after_report_ts in
      rw
        (
          ← ok-injective made,
          read_time-iso e.report_ts report_ts report_ts_written,
          optional_of-iso e.available_at available_at available_at_written,
        )
        refl
