-- ===== src/RequestStatus.antt =====
-- fs_core/stores/request_status.py: the state of the feature requests, and its store in memory.
pub mod Forms
pub mod Reads
mod Tests
use clearfeature.Prelude.{
  ℕ, String, ◌≡◌, refl, Option, none, some, List, [], Dict, lookup, insert, string_key, Result, ok,
  err, ◌>>=◌, ◌>>◌,
}
use clearfeature.Domain.{DateTime, naive, aware}
use clearfeature.Json.Reading.{JsonError, refused}

pub record RequestStatus : Type 0 where
  pub request_id : String
  pub job_id : String
  pub status : String
  pub entity_type : String
  pub entity_key : Dict String String
  pub view : String
  pub view_version : ℕ
  pub created_at : DateTime
  pub updated_at : DateTime
  pub requested_features : List String
  pub requested_feature_groups : List String
  pub online_write_status : Option String
  pub offline_write_status : Option String
  pub metadata_write_status : Option String
  pub started_at : Option DateTime
  pub finished_at : Option DateTime
  pub error : Option String

-- `_require_aware`
abbrev pub require_aware : DateTime → String → Result JsonError (Unit {0})
require_aware (naive _) name = err (refused name)
require_aware (aware _) name = ok tt

abbrev pub require_aware? : Option DateTime → String → Result JsonError (Unit {0})
require_aware? none name = ok tt
require_aware? (some t) name = require_aware t name

unfoldable pub post_init : RequestStatus → Result JsonError (Unit {0})
post_init r =
    require_aware r.created_at "created_at"
    >> require_aware r.updated_at "updated_at"
    >> require_aware? r.started_at "started_at"
    >> require_aware? r.finished_at "finished_at"

-- The dataclass's constructor.
abbrev pub make : RequestStatus → Result JsonError RequestStatus
make r = post_init r >> ok r

-- The keyword arguments of `update` that name a field: `none` where the caller gives none. Others are
-- ignored by the program.
pub record Changes : Type 0 where
  pub job_id : Option String
  pub status : Option String
  pub entity_type : Option String
  pub entity_key : Option (Dict String String)
  pub view : Option String
  pub view_version : Option ℕ
  pub created_at : Option DateTime
  pub updated_at : Option DateTime
  pub requested_features : Option (List String)
  pub requested_feature_groups : Option (List String)
  pub online_write_status : Option (Option String)
  pub offline_write_status : Option (Option String)
  pub metadata_write_status : Option (Option String)
  pub started_at : Option (Option DateTime)
  pub finished_at : Option (Option DateTime)
  pub error : Option (Option String)

-- `changes.get(name, old)`
abbrev pub given : {A : Type 0} → Option A → A → A
given none old = old
given (some new) old = new

-- The constructor's arguments, `dataclasses.replace(existing, **allowed)`.
unfoldable pub replaced : RequestStatus → Changes → DateTime → RequestStatus
replaced existing c now = record {
  request_id = existing.request_id;
  job_id = given c.job_id existing.job_id;
  status = given c.status existing.status;
  entity_type = given c.entity_type existing.entity_type;
  entity_key = given c.entity_key existing.entity_key;
  view = given c.view existing.view;
  view_version = given c.view_version existing.view_version;
  created_at = given c.created_at existing.created_at;
  updated_at = given c.updated_at now;
  requested_features = given c.requested_features existing.requested_features;
  requested_feature_groups = given c.requested_feature_groups existing.requested_feature_groups;
  online_write_status = given c.online_write_status existing.online_write_status;
  offline_write_status = given c.offline_write_status existing.offline_write_status;
  metadata_write_status = given c.metadata_write_status existing.metadata_write_status;
  started_at = given c.started_at existing.started_at;
  finished_at = given c.finished_at existing.finished_at;
  error = given c.error existing.error;
}

-- `_apply_changes`
unfoldable pub apply_changes : RequestStatus → Changes → DateTime → Result JsonError RequestStatus
unfolding replaced post_init
apply_changes existing c now = make (replaced existing c now)

-- A field of `_CREATE_REQUIRED`; a missing one ends the creation.
abbrev pub present : {A : Type 0} → Option A → Result (Unit {0}) A
present none = err tt
present (some a) = ok a

unfoldable pub arguments : String → Changes → DateTime → Result (Unit {0}) RequestStatus
arguments id c now = do
  job_id ← present c.job_id
  status ← present c.status
  entity_type ← present c.entity_type
  entity_key ← present c.entity_key
  view ← present c.view
  view_version ← present c.view_version
  ok (record {
    request_id = id;
    job_id = job_id;
    status = status;
    entity_type = entity_type;
    entity_key = entity_key;
    view = view;
    view_version = view_version;
    created_at = given c.created_at now;
    updated_at = given c.updated_at now;
    requested_features = given c.requested_features [];
    requested_feature_groups = given c.requested_feature_groups [];
    online_write_status = given c.online_write_status none;
    offline_write_status = given c.offline_write_status none;
    metadata_write_status = given c.metadata_write_status none;
    started_at = given c.started_at none;
    finished_at = given c.finished_at none;
    error = given c.error none;
  })

abbrev pub created : Result (Unit {0}) RequestStatus → Result JsonError (Option RequestStatus)
created (err _) = ok none
created (ok r) = do made ← make r; ok (some made)

-- `_maybe_create`
unfoldable pub maybe_create : String → Changes → DateTime → Result JsonError (Option RequestStatus)
unfolding arguments post_init
maybe_create id c now = created (arguments id c now)

-- `_items`
abbrev pub Store : Type 0
Store = Dict String RequestStatus

unfoldable pub put : RequestStatus → Store → Store
unfolding insert
put r s = insert r.request_id r s

unfoldable pub get : String → Store → Option RequestStatus
unfolding lookup
get id s = lookup id s

unfoldable pub update_missing : String → Option RequestStatus → Store → Store × Option RequestStatus
unfolding insert
update_missing id none s = (s, none)
update_missing id (some r) s = (insert id r s, some r)

unfoldable pub update_found :
    String
    → Changes
    → DateTime
    → Option RequestStatus
    → Store
    → Result JsonError (Store × Option RequestStatus)
unfolding maybe_create apply_changes update_missing insert
update_found id c now none s = do new ← maybe_create id c now; ok (update_missing id new s)
update_found id c now (some existing) s = do
  merged ← apply_changes existing c now
  ok (insert id merged s, some merged)

unfoldable pub update :
    String → Changes → DateTime → Store → Result JsonError (Store × Option RequestStatus)
unfolding update_found lookup
update id c now s = update_found id c now (lookup id s) s
