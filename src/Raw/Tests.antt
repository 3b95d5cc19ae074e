-- ===== src/Raw/Tests.antt =====
-- Runs of fs_core/raw/meta_repository.py, overlay.py and report_resolver.py.
use clearfeature.Prelude.{
  ℕ, String, ◌≡◌, ◌↔◌, refl, true, false, Option, none, some, List, [], ◌∷◌, ◌++◌, pos, lookup,
  insert, string_key, if◌then◌else◌, str_eq, is_blank, Dict, ok, err,
}
use clearfeature.Domain.{
  available_before_report, aware, source_provided, ingestion_time, require_aware, require_aware?,
}
use clearfeature.Samples.{user}
use clearfeature.Raw.Meta.{
  RawReportMeta, RawReportArguments, raw_report_meta, AvailabilityChange, MetaRepository, conflict,
  upsert, upsert_known, raw_meta_conflicts, is_availability_correction, build_availability_change,
  checked_size, checked_source, claims_too_early, get_meta,
}
use clearfeature.Raw.Upsert.{IsSameReport, upsert-conflict, upsert-upsert}
use clearfeature.Raw.History.{UpsertCall, upsert_all, replay_changes, upsert_all-replay}
use clearfeature.Raw.Loader.{
  load, overlaid, Reports, load_overlaid, IsOfSource, load_iff, wrong_type,
}

abbrev report : RawReportMeta
report = record {
  report_ref = "rep_1";
  report_type = "bureau";
  entity_type = "user";
  entity_key = user;
  report_ts = 3;
  payload_size_bytes = 12;
  content_hash = "h";
  storage_uri = "raw/1";
  created_at = 9;
  format = "json";
  compression = "gzip";
  available_at = some 9;
  availability_source = some ingestion_time;
}

-- The source tells later when the report was available.
abbrev claimed : RawReportMeta
claimed = record report {
  created_at = 20;
  available_at = some 4;
  availability_source = some source_provided;
}

abbrev other : RawReportMeta
other = record report { content_hash = "h2" }

abbrev arguments : RawReportArguments
arguments = record {
  report_ref = "rep_1";
  report_type = "bureau";
  entity_type = "user";
  entity_key = user;
  report_ts = aware 3;
  payload_size_bytes = pos 12;
  content_hash = "h";
  storage_uri = "raw/1";
  created_at = aware 9;
  format = "json";
  compression = "gzip";
  available_at = some (aware 9);
  availability_source = some "ingestion_time";
}

made : raw_report_meta arguments ≡ ok report
unfolding raw_report_meta is_blank checked_size require_aware require_aware? claims_too_early
    checked_source
made = refl

too_early :
    raw_report_meta (record arguments {
      available_at = some (aware 2);
      availability_source = some "source_provided";
    })
    ≡ err available_before_report
unfolding raw_report_meta is_blank checked_size require_aware require_aware? claims_too_early
    checked_source
too_early = refl

abbrev stored : MetaRepository
stored = record { metas = ("rep_1", report) ∷ []; availability_changes = [] }

-- The first time of the report stays, and one record tells of the change.
abbrev corrected : MetaRepository
corrected = record {
  metas =
      ("rep_1", record report { available_at = some 4; availability_source = some source_provided })
      ∷ [];
  availability_changes =
      record {
        report_ref = "rep_1";
        old_available_at = some 9;
        new_available_at = some 4;
        old_availability_source = some ingestion_time;
        new_availability_source = some source_provided;
        changed_at = 30;
        change_origin = "unknown";
        manifest_id = none;
        request_id = none;
        actor_key_id = none;
      }
      ∷ [];
}

correcting : upsert claimed none 30 stored ≡ ok (corrected, true)
unfolding upsert lookup insert upsert_known raw_meta_conflicts is_availability_correction
    build_availability_change
correcting = refl

upsert-upsert_example : upsert claimed none 31 corrected ≡ ok (corrected, false)
upsert-upsert_example = upsert-upsert claimed none none 30 31 stored corrected true correcting

upsert-conflict_example : (upsert other none 30 stored ≡ err (conflict "rep_1")) ↔ (
    (existing : RawReportMeta) × (lookup "rep_1" stored.metas ≡ some existing)
    × (¬ IsSameReport existing other))
upsert-conflict_example = upsert-conflict other none 30 stored

conflicting : upsert other none 30 stored ≡ err (conflict "rep_1")
unfolding upsert lookup upsert_known raw_meta_conflicts
conflicting = refl

abbrev calls : List UpsertCall
calls =
    record { meta = claimed; context = none; now = 30 }
    ∷ record { meta = other; context = none; now = 31 }
    ∷ []

found_report : lookup "rep_1" stored.metas ≡ some report
unfolding lookup
found_report = refl

upsert_all-replay_example :
    (added : List AvailabilityChange) × ((upsert_all calls stored).availability_changes
      ≡ [] ++ added)
    × (lookup "rep_1" (upsert_all calls stored).metas ≡ some (replay_changes "rep_1" added report))
upsert_all-replay_example = upsert_all-replay calls stored "rep_1" report (refl, tt) found_report

abbrev payloads : String → Option ℕ
payloads uri = if str_eq uri "raw/1" then some 7 else none

abbrev refs : Dict String String
refs = ("bureau", "rep_1") ∷ []

abbrev types : Option (Dict String String)
types = some (("bureau", "bureau") ∷ [])

-- The request brings a payload of its own, and takes the report from the store.
abbrev reports : Reports ℕ
reports = record {
  payloads = ("raw/1", 8) ∷ [];
  stored_payload = payloads;
  metas = [];
  stored_meta = λ ref. get_meta ref stored;
  source_refs = refs;
  expected_types = types;
}

load_iff_example : (load_overlaid reports "bureau" ≡ ok 8) ↔ IsOfSource reports "bureau" 8
load_iff_example = load_iff reports "bureau" 8

own_loaded : load_overlaid reports "bureau" ≡ ok 8
unfolding load overlaid lookup get_meta
own_loaded = refl

loaded : load payloads (λ ref. get_meta ref stored) refs types "bureau" ≡ ok 7
unfolding load lookup get_meta
loaded = refl

wrong :
    load payloads (λ ref. get_meta ref stored) refs (some (("bureau", "bank") ∷ [])) "bureau"
    ≡ err wrong_type
unfolding load lookup get_meta
wrong = refl
