-- ===== src/Events/ComputeRequested.antt =====
-- `FeatureComputeRequested` of fs_core/events/models.py, with its deadline.
use clearfeature.Prelude.{
  ℕ, String, ◌≡◌, refl, Bool, false, Option, none, some, List, [], ◌∷◌, Result, ok, err, ◌>>=◌,
  ◌>>◌, >>=-eq-ok, >>-eq-ok, reject_if-eq-ok, err≢ok, ok-injective, ◌<◌, arith, leb, reject_if,
}
use clearfeature.Domain.{DateTime, naive, aware}
use clearfeature.Json.{text, object, Fields, fields, find, texts}
use clearfeature.Json.Times.{IsoFormat}
use clearfeature.Json.Reading.{
  JsonError, naive_time, refused, required, optional, defaulted, read_text, read_nat, read_list,
  read_time, iso, iso_or_null, read_time-iso, optional_of-iso,
}
use clearfeature.Json.Nested.{nat, read_with, write_list, read_list-texts, read_list-write_list}
use clearfeature.Events.Entity.{
  EntityRef, to_dict as entity_to_dict, from_dict as entity_from_dict,
  from_dict-to_dict as entity_back,
}
use clearfeature.Events.Report.{
  ReportDescriptor, to_dict as report_to_dict, from_dict as report_from_dict,
  from_dict-to_dict as report_back,
}

abbrev pub feature_compute_requested : String
feature_compute_requested = "feature_compute.requested"

pub record FeatureComputeRequested : Type 0 where
  pub request_id : String
  pub job_id : String
  pub priority : String
  pub deadline_ms : ℕ
  pub entity : EntityRef
  pub view : String
  pub view_version : ℕ
  pub reports : List ReportDescriptor
  pub write_policy : String
  pub idempotency_key : String
  pub correlation_id : String
  pub occurred_at : DateTime
  pub requested_feature_groups : List String
  pub requested_features : List String
  pub event_ts : Option DateTime
  pub expires_at : Option DateTime
  pub event_type : String
  pub event_version : ℕ

-- `if t is not None: _iso(t)`
abbrev pub require_aware_event : Option DateTime → Result JsonError (Unit {0})
require_aware_event (some (naive _)) = err naive_time
require_aware_event _ = ok tt

abbrev pub expires_too_soon : Option DateTime → Option DateTime → Bool
expires_too_soon (some (aware sent)) (some (aware expires)) = leb expires sent
expires_too_soon _ _ = false

-- `__post_init__`
unfoldable pub post_init : FeatureComputeRequested → Result JsonError (Unit {0})
post_init e = do
  require_aware_event e.event_ts
  require_aware_event e.expires_at
  reject_if (expires_too_soon e.event_ts e.expires_at) (refused "expires_at")

unfoldable pub checked : FeatureComputeRequested → Result JsonError FeatureComputeRequested
unfolding post_init
checked e = do post_init e; ok e

module _ ⦃times : IsoFormat⦄ where
  unfoldable pub to_dict : FeatureComputeRequested → Result JsonError Fields
  to_dict e = do
    reports ← write_list report_to_dict e.reports
    occurred_at ← iso e.occurred_at
    event_ts ← iso_or_null e.event_ts
    expires_at ← iso_or_null e.expires_at
    ok (
        fields (
          ("event_type", text e.event_type)
          ∷ ("event_version", nat e.event_version)
          ∷ ("request_id", text e.request_id)
          ∷ ("job_id", text e.job_id)
          ∷ ("priority", text e.priority)
          ∷ ("deadline_ms", nat e.deadline_ms)
          ∷ ("entity", object (entity_to_dict e.entity))
          ∷ ("view", text e.view)
          ∷ ("view_version", nat e.view_version)
          ∷ ("requested_feature_groups", texts e.requested_feature_groups)
          ∷ ("requested_features", texts e.requested_features)
          ∷ ("reports", reports)
          ∷ ("write_policy", text e.write_policy)
          ∷ ("idempotency_key", text e.idempotency_key)
          ∷ ("correlation_id", text e.correlation_id)
          ∷ ("occurred_at", occurred_at)
          ∷ ("event_ts", event_ts)
          ∷ ("expires_at", expires_at)
          ∷ []))

  -- The arguments that `from_dict` reads.
  unfoldable pub arguments : Fields → Result JsonError FeatureComputeRequested
  unfolding required optional defaulted
  arguments data_fields = do
    request_id ← required read_text "request_id" data_fields
    job_id ← required read_text "job_id" data_fields
    priority ← required read_text "priority" data_fields
    deadline_ms ← required read_nat "deadline_ms" data_fields
    entity ← required (read_with entity_from_dict) "entity" data_fields
    view ← required read_text "view" data_fields
    view_version ← required read_nat "view_version" data_fields
    reports ← required (read_list (read_with report_from_dict)) "reports" data_fields
    write_policy ← required read_text "write_policy" data_fields
    idempotency_key ← required read_text "idempotency_key" data_fields
    correlation_id ← required read_text "correlation_id" data_fields
    occurred_at ← required read_time "occurred_at" data_fields
    requested_feature_groups ←
        defaulted (read_list read_text) "requested_feature_groups" [] data_fields
    requested_features ← defaulted (read_list read_text) "requested_features" [] data_fields
    event_ts ← optional read_time "event_ts" data_fields
    expires_at ← optional read_time "expires_at" data_fields
    event_type ← defaulted read_text "event_type" feature_compute_requested data_fields
    event_version ← defaulted read_nat "event_version" 1 data_fields
    ok (record {
      request_id = request_id;
      job_id = job_id;
      priority = priority;
      deadline_ms = deadline_ms;
      entity = entity;
      view = view;
      view_version = view_version;
      reports = reports;
      write_policy = write_policy;
      idempotency_key = idempotency_key;
      correlation_id = correlation_id;
      occurred_at = occurred_at;
      requested_feature_groups = requested_feature_groups;
      requested_features = requested_features;
      event_ts = event_ts;
      expires_at = expires_at;
      event_type = event_type;
      event_version = event_version;
    })

  unfoldable pub from_dict : Fields → Result JsonError FeatureComputeRequested
  unfolding arguments checked
  from_dict data_fields = do e ← arguments data_fields; checked e

  -- A compute request that its checks accept and that was written to JSON is read back as it was,
  -- whatever its reports, deadlines and lists.
  pub from_dict-to_dict_request :
      (e : FeatureComputeRequested) (j : Fields)
      → post_init e ≡ ok tt
      → to_dict e ≡ ok j
      → from_dict j ≡ ok e
  unfolding to_dict from_dict find checked
  from_dict-to_dict_request e j passed written =
      let (reports, reports_written, after_reports) = >>=-eq-ok _ _ written in
      let (occurred_at, occurred_at_written, after_occurred_at) = >>=-eq-ok _ _ after_reports in
      let (event_ts, event_ts_written, after_event_ts) = >>=-eq-ok _ _ after_occurred_at in
      let (expires_at, expires_at_written, made) = >>=-eq-ok _ _ after_event_ts in
      rw
        (
          ← ok-injective made,
          entity_back e.entity,
          read_list-write_list report_to_dict report_from_dict report_back e.reports reports
              reports_written,
          read_time-iso e.occurred_at occurred_at occurred_at_written,
          read_list-texts e.requested_feature_groups,
          read_list-texts e.requested_features,
          optional_of-iso e.event_ts event_ts event_ts_written,
          optional_of-iso e.expires_at expires_at expires_at_written,
          passed,
        )
        refl

-- Both times are aware, and the deadline is after the sending.
abbrev pub IsTimely : Option DateTime → Option DateTime → Type 0
IsTimely none none = Unit
IsTimely (some (aware _)) none = Unit
IsTimely none (some (aware _)) = Unit
IsTimely (some (aware sent)) (some (aware expires)) = sent < expires
IsTimely _ _ = ⊥

post_init-IsTimely :
    (sent expires : Option DateTime)
    → require_aware_event sent ≡ ok tt
    → require_aware_event expires ≡ ok tt
    → expires_too_soon sent expires ≡ false
    → IsTimely sent expires
post_init-IsTimely none none a b c = tt
post_init-IsTimely (some (aware _)) none a b c = tt
post_init-IsTimely none (some (aware _)) a b c = tt
post_init-IsTimely (some (aware sent)) (some (aware expires)) a b c = ground arith
post_init-IsTimely (some (naive _)) _ a b c = err≢ok a
post_init-IsTimely _ (some (naive _)) a b c = err≢ok b

module _ ⦃times : IsoFormat⦄ where
  -- A compute request that was read has a deadline that makes sense: its times are timezone-aware
  -- and, where both are given, it expires strictly after it was sent.
  pub from_dict-IsTimely :
      (j : Fields) (e : FeatureComputeRequested)
      → from_dict j ≡ ok e
      → IsTimely e.event_ts e.expires_at
  unfolding from_dict checked post_init
  from_dict-IsTimely j e given =
      let (e', _, after) = >>=-eq-ok (arguments j) _ given in
      let (passed, same) = >>-eq-ok (post_init e') _ after in
      let (sent, rest) = >>-eq-ok (require_aware_event e'.event_ts) _ passed in
      let (expires, last) = >>-eq-ok (require_aware_event e'.expires_at) _ rest in
      let timely =
        post_init-IsTimely e'.event_ts e'.expires_at sent expires (reject_if-eq-ok _ _ last) in
      rw (← ok-injective same) timely
