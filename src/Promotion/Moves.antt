-- ===== src/Promotion/Moves.antt =====
-- `promote` and `rollback` of fs_core/registry/promotion.py. A refused call raises before the store
-- changes, so an error carries no store.
use clearfeature.Prelude.{
  ℕ, ◌+◌, ◌*◌, String, Bool, true, false, not, Option, none, some, List, [], ◌∷◌, ◌++◌, length, ltb,
  leb, ◌==◌, if◌then◌else◌, str_eq, is_blank, contains, lookup, string_key, Result, ok, err, ◌>>=◌,
  ◌>>◌, reject_if,
}
use clearfeature.Domain.{DateTime, naive, aware}
use clearfeature.Promotion.{
  PromotionError, unknown_bundle, bad_stage, no_reason, no_profile, unknown_profile,
  duplicate_approver, too_few_approvers, override_without_reason, not_in_shadow, soak_too_short,
  no_pointer, no_previous, no_digest, mixed_times, stages, ApprovalProfile, profiles,
  EnvironmentPointer, PromotionRecord, PointerStore, get_pointer, set_pointer, append_record,
}

-- `[a for a in approved_by if a and a.strip()]`
unfoldable pub cleaned : List String → List String
unfolding is_blank
cleaned [] = []
cleaned (a ∷ as') = if is_blank a then cleaned as' else a ∷ cleaned as'

-- `dict.fromkeys(names)`, with the names that were seen before
unfoldable pub from_keys : List String → List String → List String
unfolding contains
from_keys seen [] = seen
from_keys seen (a ∷ as') =
    if contains seen a then from_keys seen as' else from_keys (seen ++ a ∷ []) as'

unfoldable pub unique_approvers : List String → Result PromotionError (List String)
unfolding cleaned from_keys
unique_approvers approved_by = do
  reject_if (not (length (from_keys [] (cleaned approved_by)) == length (cleaned approved_by)))
      duplicate_approver
  ok (from_keys [] (cleaned approved_by))

-- The arguments of a call of `promote`.
pub record PromoteCall : Type 0 where
  pub bundle_exists : Bool
  pub bundle_digest : String
  pub env : String
  pub stage : String
  pub actor : String
  pub reason : String
  pub now : DateTime
  pub promotion_id : String
  pub profile : Option String
  pub approved_by : List String
  pub shadow_age_override : Bool
  pub override_reason : Option String

abbrev pub digest_of : Option EnvironmentPointer → Option String
digest_of none = none
digest_of (some p) = some p.bundle_digest

abbrev pub known_profile : Option ApprovalProfile → Result PromotionError ApprovalProfile
known_profile none = err unknown_profile
known_profile (some prof) = ok prof

unfoldable pub profile_of : Option String → Result PromotionError ApprovalProfile
unfolding lookup
profile_of none = err no_profile
profile_of (some name) = known_profile (lookup name profiles)

-- Since when the bundle is in shadow: only the shadow pointer to this bundle counts.
abbrev pub shadow_start : String → Option EnvironmentPointer → Option DateTime
shadow_start digest none = none
shadow_start digest (some p) = if str_eq p.bundle_digest digest then p.shadow_started_at else none

-- Microseconds of a day.
abbrev pub day : ℕ
day = 86400000000

-- `not (age_days < prof.shadow_min_days)`
abbrev pub soaked : DateTime → DateTime → ℕ → Result PromotionError Bool
soaked (aware now) (aware start) days = ok (leb (start + days * day) now)
soaked (naive now) (naive start) days = ok (leb (start + days * day) now)
soaked _ _ days = err mixed_times

abbrev pub blank_text : Option String → Bool
blank_text none = true
blank_text (some s) = is_blank s

unfoldable pub check_soak :
    PromoteCall → ApprovalProfile → Option DateTime → Result PromotionError (Unit {0})
unfolding is_blank
check_soak c prof start =
    if c.shadow_age_override
    then reject_if (blank_text c.override_reason) override_without_reason
    else elim start [
      | none ↦ err not_in_shadow
      | some t ↦ (do
        long_enough ← soaked c.now t prof.shadow_min_days
        reject_if (not long_enough) soak_too_short)
    ]

unfoldable pub live_record :
    PromoteCall → PointerStore → ApprovalProfile → List String → PromotionRecord
unfolding get_pointer
live_record c s prof approvers = record {
  promotion_id = c.promotion_id;
  action = "promote";
  env = c.env;
  stage = "live";
  bundle_digest = c.bundle_digest;
  previous_digest = digest_of (get_pointer c.env "live" s);
  actor = c.actor;
  reason = c.reason;
  created_at = c.now;
  approved_by = approvers;
  profile = some prof.name;
  shadow_started_at = shadow_start c.bundle_digest (get_pointer c.env "shadow" s);
  shadow_age_override = c.shadow_age_override;
  override_reason = if c.shadow_age_override then c.override_reason else none;
}

-- `_promote_live`
unfoldable pub promote_live : PromoteCall → PointerStore → Result PromotionError PromotionRecord
unfolding profile_of unique_approvers get_pointer check_soak live_record
promote_live c s = do
  prof ← profile_of c.profile
  approvers ← unique_approvers c.approved_by
  reject_if (ltb (length approvers) prof.required_approvers) too_few_approvers
  check_soak c prof (shadow_start c.bundle_digest (get_pointer c.env "shadow" s))
  ok (live_record c s prof approvers)

-- The record of a promotion to shadow, which has no rules of its own.
unfoldable pub shadow_record : PromoteCall → PointerStore → PromotionRecord
unfolding get_pointer
shadow_record c s = record {
  promotion_id = c.promotion_id;
  action = "promote";
  env = c.env;
  stage = "shadow";
  bundle_digest = c.bundle_digest;
  previous_digest = digest_of (get_pointer c.env "shadow" s);
  actor = c.actor;
  reason = c.reason;
  created_at = c.now;
  approved_by = [];
  profile = none;
  shadow_started_at = some c.now;
  shadow_age_override = false;
  override_reason = none;
}

-- The pointer moves, and the record is appended.
unfoldable pub serve : EnvironmentPointer → PromotionRecord → PointerStore → PointerStore
unfolding set_pointer append_record
serve p r s = append_record r (set_pointer p s)

unfoldable pub promoted_record : PromoteCall → PointerStore → Result PromotionError PromotionRecord
unfolding shadow_record promote_live
promoted_record c s = if str_eq c.stage "shadow" then ok (shadow_record c s) else promote_live c s

abbrev pub promoted_pointer : PromoteCall → PromotionRecord → EnvironmentPointer
promoted_pointer c r = record {
  env = c.env;
  stage = c.stage;
  bundle_digest = c.bundle_digest;
  updated_at = c.now;
  shadow_started_at = r.shadow_started_at;
  previous_digest = r.previous_digest;
}

unfoldable pub promote :
    PromoteCall → PointerStore → Result PromotionError (PointerStore × PromotionRecord)
unfolding contains is_blank promoted_record serve
promote c s = do
  reject_if (not c.bundle_exists) unknown_bundle
  reject_if (not (contains stages c.stage)) bad_stage
  reject_if (is_blank c.reason) no_reason
  r ← promoted_record c s
  ok (serve (promoted_pointer c r) r s, r)

-- The arguments of a call of `rollback`.
pub record RollbackCall : Type 0 where
  pub env : String
  pub actor : String
  pub reason : String
  pub now : DateTime
  pub promotion_id : String
  pub stage : String
  pub to_previous : Bool
  pub bundle_digest : Option String
  pub bundle_exists : Option Bool

-- `bundle_exists is False`
abbrev pub is_false : Option Bool → Bool
is_false (some false) = true
is_false _ = false

-- `if not bundle_digest: raise`, and the bundle must not be known to be missing.
unfoldable pub named_target : Option String → Option Bool → Result PromotionError String
named_target none known = err no_digest
named_target (some digest) known = do
  reject_if (str_eq digest "") no_digest
  reject_if (is_false known) unknown_bundle
  ok digest

unfoldable pub target_of : RollbackCall → EnvironmentPointer → Result PromotionError String
unfolding named_target
target_of c current =
    if c.to_previous
    then elim current.previous_digest [ none ↦ err no_previous | some digest ↦ ok digest ]
    else named_target c.bundle_digest c.bundle_exists

abbrev pub rollback_record : RollbackCall → EnvironmentPointer → String → PromotionRecord
rollback_record c current target = record {
  promotion_id = c.promotion_id;
  action = "rollback";
  env = c.env;
  stage = c.stage;
  bundle_digest = target;
  previous_digest = some current.bundle_digest;
  actor = c.actor;
  reason = c.reason;
  created_at = c.now;
  approved_by = [];
  profile = none;
  shadow_started_at = if str_eq c.stage "shadow" then current.shadow_started_at else none;
  shadow_age_override = false;
  override_reason = none;
}

abbrev pub rollback_pointer : RollbackCall → EnvironmentPointer → String → EnvironmentPointer
rollback_pointer c current target = record {
  env = c.env;
  stage = c.stage;
  bundle_digest = target;
  updated_at = c.now;
  shadow_started_at = if str_eq c.stage "shadow" then current.shadow_started_at else none;
  previous_digest = some current.bundle_digest;
}

abbrev pub present : Option EnvironmentPointer → Result PromotionError EnvironmentPointer
present none = err no_pointer
present (some p) = ok p

unfoldable pub rollback :
    RollbackCall → PointerStore → Result PromotionError (PointerStore × PromotionRecord)
unfolding contains is_blank get_pointer target_of serve
rollback c s = do
  reject_if (is_blank c.reason) no_reason
  reject_if (not (contains stages c.stage)) bad_stage
  current ← present (get_pointer c.env c.stage s)
  target ← target_of c current
  ok (
    serve (rollback_pointer c current target) (rollback_record c current target) s,
    rollback_record c current target,
  )
