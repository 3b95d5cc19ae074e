-- ===== src/Raw/Meta.antt =====
-- `RawReportMeta` of fs_core/models.py and fs_core/raw/meta_repository.py: a report reference is
-- written once, and later writes may only correct when the report became available.
use clearfeature.Prelude.{
  ℕ, String, ◌≡◌, ◌↔◌, refl, Bool, true, false, not, ◌&&◌, ◌||◌, Option, none, some, List, [], ◌∷◌,
  ◌++◌, arith, ltb, ◌==◌, is_some, if◌then◌else◌, str_eq, eq_iff, is_blank, ℤ, pos, negsuc, Dict,
  lookup, insert, string_key, Result, ok, err, ◌>>=◌, ◌>>◌, reject_if,
}
use clearfeature.Domain.{
  DomainError, empty_text, negative_size, available_before_report, bad_availability_source,
  DateTime, require_aware, require_aware?, EntityKey, Availability, source_provided, ingestion_time,
}

pub record RawReportMeta : Type 0 where
  pub report_ref : String
  pub report_type : String
  pub entity_type : String
  pub entity_key : EntityKey
  pub report_ts : ℕ
  pub payload_size_bytes : ℕ
  pub content_hash : String
  pub storage_uri : String
  pub created_at : ℕ
  pub format : String
  pub compression : String
  pub available_at : Option ℕ
  pub availability_source : Option Availability

-- The arguments of the dataclass, before its checks.
pub record RawReportArguments : Type 0 where
  pub report_ref : String
  pub report_type : String
  pub entity_type : String
  pub entity_key : EntityKey
  pub report_ts : DateTime
  pub payload_size_bytes : ℤ
  pub content_hash : String
  pub storage_uri : String
  pub created_at : DateTime
  pub format : String
  pub compression : String
  pub available_at : Option DateTime
  pub availability_source : Option String

unfoldable pub checked_size : ℤ → Result DomainError ℕ
checked_size (pos n) = ok n
checked_size (negsuc _) = err negative_size

-- A trusted claim from before the report itself.
unfoldable pub claims_too_early : Option String → Option ℕ → ℕ → Bool
claims_too_early (some source) (some available) report_ts =
    str_eq source "source_provided" && ltb available report_ts
claims_too_early _ _ report_ts = false

unfoldable pub checked_source : Option String → Result DomainError (Option Availability)
checked_source none = ok none
checked_source (some source) =
    if str_eq source "source_provided"
    then ok (some source_provided)
    else if str_eq source "ingestion_time"
    then ok (some ingestion_time)
    else err bad_availability_source

-- `__post_init__`
unfoldable pub raw_report_meta : RawReportArguments → Result DomainError RawReportMeta
unfolding is_blank checked_size require_aware require_aware? claims_too_early checked_source
raw_report_meta a = do
  reject_if (is_blank a.report_ref) (empty_text "report_ref")
  size ← checked_size a.payload_size_bytes
  report_ts ← require_aware a.report_ts "report_ts"
  created_at ← require_aware a.created_at "created_at"
  available_at ← require_aware? a.available_at "available_at"
  reject_if (claims_too_early a.availability_source available_at report_ts) available_before_report
  source ← checked_source a.availability_source
  ok (record {
    report_ref = a.report_ref;
    report_type = a.report_type;
    entity_type = a.entity_type;
    entity_key = a.entity_key;
    report_ts = report_ts;
    payload_size_bytes = size;
    content_hash = a.content_hash;
    storage_uri = a.storage_uri;
    created_at = created_at;
    format = a.format;
    compression = a.compression;
    available_at = available_at;
    availability_source = source;
  })

abbrev pub same_parts : List (String × String) → List (String × String) → Bool
same_parts [] [] = true
same_parts (p ∷ ps) (q ∷ qs) = str_eq p.0 q.0 && str_eq p.1 q.1 && same_parts ps qs
same_parts _ _ = false

pub same_parts_iff : (ps qs : List (String × String)) → (same_parts ps qs ≡ true) ↔ (ps ≡ qs)
same_parts_iff [] [] = (λ h. refl, λ h. refl)
same_parts_iff [] (q ∷ qs) = (λ h. cc, λ h. cc)
same_parts_iff (p ∷ ps) [] = (λ h. cc, λ h. cc)
same_parts_iff ((a, b) ∷ ps) ((c, d) ∷ qs) =
    ground (arith, eq_iff a c, eq_iff b d, same_parts_iff ps qs)

-- Differs in one of `_IDENTITY_FIELDS`
unfoldable pub raw_meta_conflicts : RawReportMeta → RawReportMeta → Bool
raw_meta_conflicts a b =
    not (str_eq a.report_type b.report_type)
    || not (str_eq a.entity_type b.entity_type)
    || not (same_parts a.entity_key.parts b.entity_key.parts)
    || not (a.report_ts == b.report_ts)
    || not (a.payload_size_bytes == b.payload_size_bytes)
    || not (str_eq a.content_hash b.content_hash)
    || not (str_eq a.storage_uri b.storage_uri)
    || not (str_eq a.format b.format)
    || not (str_eq a.compression b.compression)

abbrev pub is_source_claim : Option Availability → Bool
is_source_claim (some source_provided) = true
is_source_claim _ = false

abbrev pub same_time : Option ℕ → Option ℕ → Bool
same_time none none = true
same_time (some a) (some b) = a == b
same_time _ _ = false

unfoldable pub is_availability_correction : RawReportMeta → RawReportMeta → Bool
unfolding raw_meta_conflicts
is_availability_correction existing incoming =
    if raw_meta_conflicts existing incoming
    then false
    else (is_source_claim incoming.availability_source
        && is_some incoming.available_at
        && not (same_time incoming.available_at existing.available_at))

pub record CorrectionContext : Type 0 where
  pub change_origin : String
  pub manifest_id : Option String
  pub request_id : Option String
  pub actor_key_id : Option String

pub record AvailabilityChange : Type 0 where
  pub report_ref : String
  pub old_available_at : Option ℕ
  pub new_available_at : Option ℕ
  pub old_availability_source : Option Availability
  pub new_availability_source : Option Availability
  pub changed_at : ℕ
  pub change_origin : String
  pub manifest_id : Option String
  pub request_id : Option String
  pub actor_key_id : Option String

abbrev pub unknown_context : CorrectionContext
unknown_context = record {
  change_origin = "unknown";
  manifest_id = none;
  request_id = none;
  actor_key_id = none;
}

abbrev pub known_context : Option CorrectionContext → CorrectionContext
known_context none = unknown_context
known_context (some context) = context

unfoldable pub build_availability_change :
    RawReportMeta → RawReportMeta → Option CorrectionContext → ℕ → AvailabilityChange
build_availability_change existing incoming context now = record {
  report_ref = existing.report_ref;
  old_available_at = existing.available_at;
  new_available_at = incoming.available_at;
  old_availability_source = existing.availability_source;
  new_availability_source = incoming.availability_source;
  changed_at = now;
  change_origin = (known_context context).change_origin;
  manifest_id = (known_context context).manifest_id;
  request_id = (known_context context).request_id;
  actor_key_id = (known_context context).actor_key_id;
}

-- `InMemoryMetaRepository`
pub record MetaRepository : Type 0 where
  pub metas : Dict String RawReportMeta
  pub availability_changes : List AvailabilityChange

abbrev pub empty_repository : MetaRepository
empty_repository = record { metas = []; availability_changes = [] }

-- `RawReportMetaConflictError`, with its report reference
pub data RawReportMetaConflictError : Type 0 where
  conflict : String → RawReportMetaConflictError

unfoldable pub add : RawReportMeta → MetaRepository → MetaRepository
unfolding insert
add meta s = record s { metas = insert meta.report_ref meta s.metas }

-- `replace(existing, available_at=..., availability_source=...)`
abbrev pub with_availability : RawReportMeta → RawReportMeta → RawReportMeta
with_availability existing meta = record existing {
  available_at = meta.available_at;
  availability_source = meta.availability_source;
}

abbrev pub correct :
    RawReportMeta → RawReportMeta → Option CorrectionContext → ℕ → MetaRepository → MetaRepository
correct existing meta context now s = record {
  metas = insert meta.report_ref (with_availability existing meta) s.metas;
  availability_changes =
      s.availability_changes ++ build_availability_change existing meta context now ∷ [];
}

-- `upsert`, where the reference is known
unfoldable pub upsert_known :
    RawReportMeta
    → RawReportMeta
    → Option CorrectionContext
    → ℕ
    → MetaRepository
    → Result RawReportMetaConflictError (MetaRepository × Bool)
unfolding insert build_availability_change
upsert_known existing meta context now s =
    if raw_meta_conflicts existing meta
    then err (conflict meta.report_ref)
    else if is_availability_correction existing meta
    then ok (correct existing meta context now s, true)
    else ok (s, false)

-- `upsert`, with what `_meta.get(report_ref)` found
abbrev pub upsert_found :
    Option RawReportMeta
    → RawReportMeta
    → Option CorrectionContext
    → ℕ
    → MetaRepository
    → Result RawReportMetaConflictError (MetaRepository × Bool)
upsert_found none meta context now s = ok (add meta s, true)
upsert_found (some existing) meta context now s = upsert_known existing meta context now s

unfoldable pub upsert :
    RawReportMeta
    → Option CorrectionContext
    → ℕ
    → MetaRepository
    → Result RawReportMetaConflictError (MetaRepository × Bool)
unfolding add upsert_known
upsert meta context now s = upsert_found (lookup meta.report_ref s.metas) meta context now s

-- `get_meta`, whose KeyError is the missing value
unfoldable pub get_meta : String → MetaRepository → Option RawReportMeta
unfolding lookup
get_meta report_ref s = lookup report_ref s.metas
