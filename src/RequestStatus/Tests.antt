-- ===== src/RequestStatus/Tests.antt =====
-- Runs of the request status store of fs_core/stores/request_status.py.
use clearfeature.Prelude.{◌≡◌, refl, none, some, List, [], ◌∷◌, ok, err, lookup, insert}
use clearfeature.Domain.{naive, aware}
use clearfeature.Json.Reading.{refused}
use clearfeature.Json.Tally.{tally}
use clearfeature.RequestStatus.{
  RequestStatus, Changes, arguments, replaced, apply_changes, maybe_create, post_init, put, get,
  update, update_found, update_missing,
}
use clearfeature.RequestStatus.Forms.{to_dict, from_dict}
use clearfeature.RequestStatus.Reads.{Operation, putting, updating, step, run, get-run}

abbrev accepted : RequestStatus
accepted = record {
  request_id = "req_1";
  job_id = "job_1";
  status = "accepted";
  entity_type = "user";
  entity_key = ("user_id", "7") ∷ [];
  view = "risk";
  view_version = 2;
  created_at = aware 3;
  updated_at = aware 3;
  requested_features = [];
  requested_feature_groups = "all" ∷ [];
  online_write_status = none;
  offline_write_status = none;
  metadata_write_status = none;
  started_at = none;
  finished_at = none;
  error = none;
}

abbrev nothing : Changes
nothing = record {
  job_id = none;
  status = none;
  entity_type = none;
  entity_key = none;
  view = none;
  view_version = none;
  created_at = none;
  updated_at = none;
  requested_features = none;
  requested_feature_groups = none;
  online_write_status = none;
  offline_write_status = none;
  metadata_write_status = none;
  started_at = none;
  finished_at = none;
  error = none;
}

abbrev completed : Changes
completed = record nothing { status = some "completed"; finished_at = some (some (aware 8)) }

abbrev done : RequestStatus
done = record accepted { status = "completed"; finished_at = some (aware 8); updated_at = aware 9 }

-- The last call raises: its time has no zone.
abbrev operations : List Operation
operations =
    putting accepted
    ∷ updating "req_1" completed (aware 9)
    ∷ updating "req_1" (record nothing { started_at = some (some (naive 4)) }) (aware 10)
    ∷ []

raised :
    update "req_1"
      (record nothing { started_at = some (some (naive 4)) })
      (aware 10)
      (("req_1", accepted) ∷ [])
    ≡ err (refused "started_at")
unfolding update update_found lookup apply_changes replaced post_init
raised = refl

-- A status that is not there is not made from part of its fields.
not_created : update "req_2" completed (aware 9) [] ≡ ok ([], none)
unfolding update update_found lookup maybe_create arguments update_missing
not_created = refl

held : get "req_1" (run operations []) ≡ some done
unfolding get run step put insert update update_found lookup apply_changes replaced post_init
held = refl

get-run_example : (done.request_id ≡ "req_1") × (from_dict (to_dict done) ≡ ok done)
get-run_example = get-run operations "req_1" done held
