-- ===== src/Promotion/Audit.antt =====
-- The pointers of fs_core/registry/promotion.py against the audit records.
use clearfeature.Prelude.{
  String, ◌≡◌, refl, sym, ◌∙◌, true, false, Option, none, some, List, [], ◌∷◌, ◌++◌, if◌then◌else◌,
  str_eq, str_eq_self, inl, inr, ok, contains, contains→In, lookup-insert,
}
use mathlib.Core.Path.{subst}
use mathlib.Core.Bool.{true≢false}
use clearfeature.Promotion.{
  EnvironmentPointer, PromotionRecord, PointerKey, same_pointer, pointer_key, at, PointerStore,
  empty_store, get_pointer, set_pointer, append_record, stages,
}
use clearfeature.Promotion.Moves.{
  PromoteCall, promote, promote_live, live_record, shadow_record, promoted_pointer, promoted_record,
  serve, RollbackCall, rollback, rollback_pointer, rollback_record,
}
use clearfeature.Promotion.Cases.{
  promote-eq-ok, promote_live-eq-ok, promoted_record-cases, rollback-eq-ok,
}

-- The pointer that a record tells of.
unfoldable pub pointer_of : PromotionRecord → EnvironmentPointer
pointer_of r = record {
  env = r.env;
  stage = r.stage;
  bundle_digest = r.bundle_digest;
  updated_at = r.created_at;
  shadow_started_at = r.shadow_started_at;
  previous_digest = r.previous_digest;
}

-- The pointer that the last record of `key` tells of, if one of the records is of `key`.
unfoldable pub replay :
    PointerKey → Option EnvironmentPointer → List PromotionRecord → Option EnvironmentPointer
unfolding pointer_of
replay key found [] = found
replay key found (r ∷ rs) =
    replay key (if same_pointer (at r.env r.stage) key then some (pointer_of r) else found) rs

pub data IsReachable : PointerStore → Type 0 where
  new : IsReachable empty_store
  promoted :
      {s s' : PointerStore} (c : PromoteCall) (r : PromotionRecord)
      → IsReachable s
      → promote c s ≡ ok (s', r)
      → IsReachable s'
  rolled_back :
      {s s' : PointerStore} (c : RollbackCall) (r : PromotionRecord)
      → IsReachable s
      → rollback c s ≡ ok (s', r)
      → IsReachable s'

abbrev IsAudited : PointerStore → Type 0
IsAudited s = (env stage : String) → get_pointer env stage s ≡ replay (at env stage) none s.records

replay-snoc :
    (key : PointerKey) (rs : List PromotionRecord) (found : Option EnvironmentPointer)
    (r : PromotionRecord)
    → replay key found (rs ++ r ∷ [])
      ≡ (if same_pointer (at r.env r.stage) key then some (pointer_of r) else replay key found rs)
unfolding replay
replay-snoc key [] found r = refl
replay-snoc key (x ∷ rs) found r =
    replay-snoc key rs (if same_pointer (at x.env x.stage) key then some (pointer_of x) else found)
      r

serve-IsAudited :
    (p : EnvironmentPointer) (r : PromotionRecord) (s : PointerStore)
    → pointer_of r ≡ p
    → IsAudited s
    → IsAudited (serve p r s)
unfolding serve get_pointer set_pointer append_record pointer_of
serve-IsAudited p r s same old env stage =
    rw
      (
        ← same,
        lookup-insert (at r.env r.stage) (at env stage) (pointer_of r) s.pointers,
        replay-snoc (at env stage) s.records none r,
        ← old env stage,
      )
      refl

-- The stage of a call that is not to shadow is live.
pub live_stage :
    (stage : String) → contains stages stage ≡ true → str_eq stage "shadow" ≡ false → stage ≡ "live"
live_stage stage known other = elim (contains→In stages stage known) [
  | inl e ↦ absurd (true≢false (sym (str_eq_self "shadow") ∙ (rw e at other)))
  | inr (inl e) ↦ e
  | inr (inr i) ↦ elim i [ ]
]

-- A live record is of the call's environment, bundle and time.
promote_live-pointer :
    (c : PromoteCall) (s : PointerStore) (r : PromotionRecord)
    → c.stage ≡ "live"
    → promote_live c s ≡ ok r
    → pointer_of r ≡ promoted_pointer c r
unfolding live_record pointer_of
promote_live-pointer c s r live made =
    let p = promote_live-eq-ok c s r made in rw (p.recorded, live) refl

promote-pointer :
    (c : PromoteCall) (s : PointerStore) (r : PromotionRecord)
    → contains stages c.stage ≡ true
    → promoted_record c s ≡ ok r
    → pointer_of r ≡ promoted_pointer c r
unfolding shadow_record pointer_of
promote-pointer c s r known made = elim (promoted_record-cases c s r made) [
  | inl (shadow, e) ↦ rw (e, shadow) refl
  | inr (other, live) ↦ promote_live-pointer c s r (live_stage c.stage known other) live
]

-- In every store that promotions and rollbacks make from the empty one, the pointer of an
-- environment and a stage is what the last audit record of the two tells of, and there is none
-- if there is no such record.
pub get_pointer-replay :
    (s : PointerStore)
    → IsReachable s
    → (env stage : String) → get_pointer env stage s ≡ replay (at env stage) none s.records
unfolding get_pointer replay pointer_of
get_pointer-replay s new env stage = refl
get_pointer-replay s (promoted {s = s0} c r before done) env stage =
    let p = promote-eq-ok c s0 s r done in
    subst (λ (x : PointerStore). IsAudited x) (sym p.moved)
      (serve-IsAudited (promoted_pointer c r) r s0 (promote-pointer c s0 r p.staged p.recorded)
        (get_pointer-replay s0 before))
      env stage
get_pointer-replay s (rolled_back {s = s0} c r before done) env stage =
    let p = rollback-eq-ok c s0 s r done in
    subst (λ (x : PointerStore). IsAudited x) (sym p.moved)
      (serve-IsAudited (rollback_pointer c p.current p.target)
        (rollback_record c p.current p.target) s0 refl (get_pointer-replay s0 before))
      env stage
