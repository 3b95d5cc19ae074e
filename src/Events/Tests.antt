-- ===== src/Events/Tests.antt =====
-- Runs of the events of fs_core/events/models.py.
use clearfeature.Prelude.{◌≡◌, refl, none, some, [], ◌∷◌, ok, err, Result, pos, is_blank}
use clearfeature.Domain.{
  naive, aware, FeatureResult, entity_key, feature_ref, encode_parts, dict_of,
}
use clearfeature.Domain.KeyCodec.{encode_entity_key}
use clearfeature.Domain.WriteSet.{FeatureWriteSet}
use clearfeature.Json.{Json, int, Fields, no_fields}
use clearfeature.Json.Tally.{tally}
use clearfeature.Json.Reading.{naive_time, refused}
use clearfeature.Samples.{user}
use clearfeature.Events.Entity.{EntityRef}
use clearfeature.Events.Report.{ReportDescriptor, to_dict as report_to_dict}
use clearfeature.Events.ComputeRequested.{
  FeatureComputeRequested, IsTimely, to_dict, from_dict, post_init, from_dict-to_dict_request,
  from_dict-IsTimely,
}
use clearfeature.Events.OfflineWrite.{
  FeatureOfflineWriteRequested, to_dict as write_to_dict, from_dict as write_from_dict,
  from_dict-to_dict_write,
}

abbrev entity : EntityRef
entity = record { entity_type = "user"; entity_key = ("user_id", "7") ∷ [] }

abbrev report : ReportDescriptor
report = record {
  report_ref = "rep_1";
  source_name = "bureau";
  report_type = "bureau";
  schema_version = "1";
  report_ts = aware 3;
  object_key = "raw/1";
  content_hash = "h";
  size_bytes = 12;
  compression = "gzip";
  format = "json";
  available_at = some (aware 4);
}

abbrev request : FeatureComputeRequested
request = record {
  request_id = "req_1";
  job_id = "job_1";
  priority = "high";
  deadline_ms = 2;
  entity = entity;
  view = "risk";
  view_version = 2;
  reports = report ∷ [];
  write_policy = "online_first";
  idempotency_key = "k";
  correlation_id = "c";
  occurred_at = aware 5;
  requested_feature_groups = "all" ∷ [];
  requested_features = [];
  event_ts = some (aware 5);
  expires_at = some (aware 7);
  event_type = "feature_compute.requested";
  event_version = 1;
}

-- A value that `result` holds, and its type.
abbrev value_of : {E A : Type 0} → A → Result E A → A
value_of other (err _) = other
value_of other (ok a) = a

abbrev request_fields : Fields
unfolding to_dict
request_fields = value_of no_fields (to_dict request)

request_written : to_dict request ≡ ok request_fields
unfolding to_dict report_to_dict
request_written = refl

request_passed : post_init request ≡ ok tt
unfolding post_init
request_passed = refl

expired_at_once :
    post_init (record request { expires_at = some (aware 5) }) ≡ err (refused "expires_at")
unfolding post_init
expired_at_once = refl

-- A time that was parsed without a zone is refused only when it is written again.
naive_occurred : to_dict (record request { occurred_at = naive 5 }) ≡ err naive_time
unfolding to_dict report_to_dict
naive_occurred = refl

from_dict-to_dict_request_example : from_dict request_fields ≡ ok request
from_dict-to_dict_request_example =
    from_dict-to_dict_request request request_fields request_passed request_written

from_dict-IsTimely_example : IsTimely (some (aware 5)) (some (aware 7))
from_dict-IsTimely_example =
    from_dict-IsTimely request_fields request
      (from_dict-to_dict_request request request_fields request_passed request_written)

abbrev user_income : FeatureResult Json
user_income = record {
  ref = record { name = "income"; version = 1 };
  entity = user;
  value = int (pos 3);
  data_ts = 5;
  calc_ts = 6;
  max_input_data_ts = some 5;
  input_fingerprint = some "f";
  value_hash = none;
  available_at = none;
  availability_source = none;
  model_uri = none;
  model_digest = none;
  model_output_name = none;
  bundle_digest = none;
}

abbrev write_set : FeatureWriteSet Json
write_set = record {
  view = "risk";
  view_version = 2;
  entity_key = user;
  results = ("income", user_income) ∷ [];
  source_refs = ("bureau", "rep_1") ∷ [];
  request_id = some "req_1";
  job_id = none;
  run_id = none;
  correlation_id = none;
  write_policy = "online_first";
  node_statuses = ("income", "ok") ∷ [];
}

abbrev offline_write : FeatureOfflineWriteRequested
offline_write = record {
  request_id = "req_1";
  job_id = "job_1";
  correlation_id = "c";
  occurred_at = aware 5;
  write_set = write_set;
  event_type = "feature_write.offline.requested";
  event_version = 1;
}

abbrev write_fields : Fields
unfolding write_to_dict
write_fields = value_of no_fields (write_to_dict offline_write)

write_written : write_to_dict offline_write ≡ ok write_fields
unfolding write_to_dict
write_written = refl

user_made : entity_key user.parts ≡ ok user
unfolding entity_key encode_parts encode_entity_key dict_of
user_made = refl

income_made : feature_ref "income" 1 ≡ ok (record { name = "income"; version = 1 })
unfolding feature_ref is_blank
income_made = refl

from_dict-to_dict_write_example :
    write_from_dict write_fields
    ≡ ok (record offline_write { write_set = record write_set { node_statuses = [] } })
from_dict-to_dict_write_example =
    from_dict-to_dict_write offline_write write_fields user_made ((refl, income_made), tt)
      write_written
