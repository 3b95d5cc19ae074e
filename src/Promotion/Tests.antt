-- ===== src/Promotion/Tests.antt =====
-- Runs of fs_core/registry/promotion.py.
use clearfeature.Prelude.{
  ◌≡◌, refl, true, false, none, some, [], ◌∷◌, ok, err, lookup, insert, contains, is_blank,
}
use clearfeature.Domain.{aware}
use clearfeature.Json.Tally.{tally}
use clearfeature.Promotion.{
  duplicate_approver, soak_too_short, EnvironmentPointer, PromotionRecord, PointerStore,
  empty_store, get_pointer, set_pointer, append_record, pointer_key, at,
}
use clearfeature.Promotion.Moves.{
  PromoteCall, promote, shadow_record, live_record, promote_live, promoted_pointer, promoted_record,
  serve, RollbackCall, rollback, profile_of, unique_approvers, cleaned, from_keys, check_soak,
}
use clearfeature.Promotion.Audit.{new, promoted, replay, get_pointer-replay, pointer_of}
use clearfeature.Promotion.Undo.{rollback-promote}
use clearfeature.Promotion.Forms.{
  pointer_to_dict, pointer_from_dict, record_to_dict, record_from_dict, from_dict-to_dict_pointer,
}

abbrev to_shadow : PromoteCall
to_shadow = record {
  bundle_exists = true;
  bundle_digest = "sha256:1";
  env = "prod";
  stage = "shadow";
  actor = "ann";
  reason = "try it";
  now = aware 5;
  promotion_id = "prm_1";
  profile = none;
  approved_by = [];
  shadow_age_override = false;
  override_reason = none;
}

abbrev to_live : PromoteCall
to_live = record to_shadow {
  stage = "live";
  now = aware 604800000005;
  promotion_id = "prm_2";
  profile = some "bank";
  approved_by = "bob" ∷ " " ∷ "eve" ∷ [];
}

abbrev in_shadow : PointerStore
in_shadow =
    serve (promoted_pointer to_shadow (shadow_record to_shadow empty_store))
      (shadow_record to_shadow empty_store) empty_store

shadowed : promote to_shadow empty_store ≡ ok (in_shadow, shadow_record to_shadow empty_store)
unfolding promote contains is_blank promoted_record
shadowed = refl

abbrev live_entry : PromotionRecord
live_entry = record {
  promotion_id = "prm_2";
  action = "promote";
  env = "prod";
  stage = "live";
  bundle_digest = "sha256:1";
  previous_digest = none;
  actor = "ann";
  reason = "try it";
  created_at = aware 604800000005;
  approved_by = "bob" ∷ "eve" ∷ [];
  profile = some "bank";
  shadow_started_at = some (aware 5);
  shadow_age_override = false;
  override_reason = none;
}

abbrev in_live : PointerStore
in_live = serve (promoted_pointer to_live live_entry) live_entry in_shadow

went_live : promote to_live in_shadow ≡ ok (in_live, live_entry)
unfolding promote contains is_blank promoted_record promote_live live_record profile_of
    unique_approvers cleaned from_keys check_soak get_pointer lookup serve shadow_record set_pointer
    append_record insert
went_live = refl

-- One microsecond is missing from the seven days.
too_early : promote (record to_live { now = aware 604800000004 }) in_shadow ≡ err soak_too_short
unfolding promote contains is_blank promoted_record promote_live live_record profile_of
    unique_approvers cleaned from_keys check_soak get_pointer lookup serve shadow_record set_pointer
    append_record insert
too_early = refl

twice :
    promote (record to_live { approved_by = "bob" ∷ "bob" ∷ "eve" ∷ [] }) in_shadow
    ≡ err duplicate_approver
unfolding promote contains is_blank promoted_record promote_live live_record profile_of
    unique_approvers cleaned from_keys
twice = refl

get_pointer-replay_example :
    get_pointer "prod" "live" in_live ≡ replay (at "prod" "live") none in_live.records
get_pointer-replay_example =
    get_pointer-replay in_live
      (promoted to_live live_entry
        (promoted to_shadow (shadow_record to_shadow empty_store) new shadowed) went_live)
      "prod" "live"

-- A second bundle, and back to the first.
abbrev next : PromoteCall
next = record to_shadow { bundle_digest = "sha256:2"; now = aware 9; promotion_id = "prm_3" }

abbrev back : RollbackCall
back = record {
  env = "prod";
  actor = "ann";
  reason = "it fails";
  now = aware 11;
  promotion_id = "rbk_1";
  stage = "shadow";
  to_previous = true;
  bundle_digest = none;
  bundle_exists = none;
}

abbrev both : PointerStore
both =
    serve (promoted_pointer next (shadow_record next in_shadow)) (shadow_record next in_shadow)
      in_shadow

promoted_next : promote next in_shadow ≡ ok (both, shadow_record next in_shadow)
unfolding promote contains is_blank promoted_record
promoted_next = refl

there :
    get_pointer "prod" "shadow" in_shadow
    ≡ some (promoted_pointer to_shadow (shadow_record to_shadow empty_store))
unfolding get_pointer lookup serve set_pointer append_record insert
there = refl

reasoned : is_blank "it fails" ≡ false
unfolding is_blank
reasoned = refl

rollback-promote_example :
    (s : PointerStore) × (r : PromotionRecord) × (now : EnvironmentPointer) × (rollback back both
      ≡ ok (s, r))
    × (get_pointer "prod" "shadow" s ≡ some now)
    × (now.bundle_digest ≡ "sha256:1")
unfolding shadow_record
rollback-promote_example =
    rollback-promote next back in_shadow both (shadow_record next in_shadow)
      (promoted_pointer to_shadow (shadow_record to_shadow empty_store)) promoted_next there
      (refl, refl, refl, reasoned)

forms-back_example :
    (pointer_from_dict (pointer_to_dict (pointer_of live_entry)) ≡ ok (pointer_of live_entry))
    × (record_from_dict (record_to_dict live_entry) ≡ ok live_entry)
forms-back_example = from_dict-to_dict_pointer (pointer_of live_entry) live_entry
