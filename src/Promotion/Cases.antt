-- ===== src/Promotion/Cases.antt =====
-- What a call of fs_core/registry/promotion.py that returns has passed.
use clearfeature.Prelude.{
  String, ◌≡◌, sym, ap, true, false, not, Option, none, some, List, ◌⊎◌, inl, inr, str_eq, ltb,
  length, str_eq-cases, is_blank, contains, ok, reject_if, reject_if-eq-ok, >>-eq-ok, >>=-eq-ok,
  ok-injective_pair, ok-injective, err≢ok, not-false,
}
use clearfeature.Promotion.{
  ApprovalProfile, no_reason, bad_stage, stages, EnvironmentPointer, PromotionRecord, PointerStore,
  get_pointer,
}
use clearfeature.Promotion.Moves.{
  PromoteCall, promote, promoted_record, promote_live, shadow_record, promoted_pointer, serve,
  live_record, profile_of, unique_approvers, check_soak, shadow_start, RollbackCall, rollback,
  rollback_record, rollback_pointer, target_of, present,
}

pub record IsPromoted (c : PromoteCall) (s s' : PointerStore) (r : PromotionRecord) : Type 0 where
  pub there : c.bundle_exists ≡ true
  pub staged : contains stages c.stage ≡ true
  pub reasoned : is_blank c.reason ≡ false
  pub recorded : promoted_record c s ≡ ok r
  pub moved : s' ≡ serve (promoted_pointer c r) r s

pub promote-eq-ok :
    (c : PromoteCall) (s s' : PointerStore) (r : PromotionRecord)
    → promote c s ≡ ok (s', r)
    → IsPromoted c s s' r
unfolding promote
promote-eq-ok c s s' r done =
    let (there, after) = >>-eq-ok _ _ done in
    let (staged, later) = >>-eq-ok _ _ after in
    let (reasoned, last) = >>-eq-ok _ _ later in
    let (r', recorded, made) = >>=-eq-ok _ _ last in
    let (stored, same) = ok-injective_pair made in
    record {
      there = not-false _ (reject_if-eq-ok _ _ there);
      staged = not-false _ (reject_if-eq-ok _ _ staged);
      reasoned = reject_if-eq-ok _ _ reasoned;
      recorded = rw (← same) recorded;
      moved = rw (← same) (sym stored);
    }

-- The two branches of a promotion.
pub promoted_record-cases :
    (c : PromoteCall) (s : PointerStore) (r : PromotionRecord)
    → promoted_record c s ≡ ok r
    → ((c.stage ≡ "shadow") × (r ≡ shadow_record c s))
      ⊎ ((str_eq c.stage "shadow" ≡ false) × (promote_live c s ≡ ok r))
unfolding promoted_record
promoted_record-cases c s r made = elim (str_eq-cases c.stage "shadow") [
  | inl (t, e) ↦ inl (e, sym (ok-injective (rw t at made)))
  | inr (f, _) ↦ inr (f, rw f at made)
]

pub record IsRolledBack (c : RollbackCall) (s s' : PointerStore) (r : PromotionRecord)
    : Type 0 where
  pub current : EnvironmentPointer
  pub target : String
  pub found : get_pointer c.env c.stage s ≡ some current
  pub aimed : target_of c current ≡ ok target
  pub recorded : r ≡ rollback_record c current target
  pub moved : s' ≡ serve (rollback_pointer c current target) (rollback_record c current target) s

present-eq-ok :
    (o : Option EnvironmentPointer) (p : EnvironmentPointer) → present o ≡ ok p → o ≡ some p
present-eq-ok none p h = absurd (err≢ok h)
present-eq-ok (some q) p h = ap some (ok-injective h)

pub rollback-eq-ok :
    (c : RollbackCall) (s s' : PointerStore) (r : PromotionRecord)
    → rollback c s ≡ ok (s', r)
    → IsRolledBack c s s' r
unfolding rollback
rollback-eq-ok c s s' r done =
    let (reasoned, after) = >>-eq-ok (reject_if (is_blank c.reason) no_reason) _ done in
    let (staged, later) = >>-eq-ok (reject_if (not (contains stages c.stage)) bad_stage) _ after in
    let (current, found, last) = >>=-eq-ok _ _ later in
    let (target, aimed, made) = >>=-eq-ok _ _ last in
    let (stored, same) = ok-injective_pair made in
    record {
      current = current;
      target = target;
      found = present-eq-ok _ _ found;
      aimed = aimed;
      recorded = sym same;
      moved = sym stored;
    }

pub record IsLive (c : PromoteCall) (s : PointerStore) (r : PromotionRecord) : Type 0 where
  pub prof : ApprovalProfile
  pub approvers : List String
  pub profiled : profile_of c.profile ≡ ok prof
  pub approved : unique_approvers c.approved_by ≡ ok approvers
  pub enough : ltb (length approvers) prof.required_approvers ≡ false
  pub soaked_long :
      check_soak c prof (shadow_start c.bundle_digest (get_pointer c.env "shadow" s)) ≡ ok tt
  pub recorded : r ≡ live_record c s prof approvers

pub promote_live-eq-ok :
    (c : PromoteCall) (s : PointerStore) (r : PromotionRecord)
    → promote_live c s ≡ ok r
    → IsLive c s r
unfolding promote_live
promote_live-eq-ok c s r made =
    let (prof, profiled, after) = >>=-eq-ok (profile_of c.profile) _ made in
    let (approvers, approved, later) = >>=-eq-ok (unique_approvers c.approved_by) _ after in
    let (enough, rest) = >>-eq-ok _ _ later in
    let (soaked_long, last) = >>-eq-ok _ _ rest in
    record {
      prof = prof;
      approvers = approvers;
      profiled = profiled;
      approved = approved;
      enough = reject_if-eq-ok _ _ enough;
      soaked_long = soaked_long;
      recorded = sym (ok-injective last);
    }
