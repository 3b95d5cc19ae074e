-- ===== src/Promotion/Undo.antt =====
-- A rollback to the previous bundle undoes a promotion, fs_core/registry/promotion.py.
use clearfeature.Prelude.{
  String, ◌≡◌, refl, true, false, some, is_blank, contains, lookup-insert_self, ok, inl, inr,
}
use clearfeature.Promotion.{
  EnvironmentPointer, PromotionRecord, PointerStore, stages, at, get_pointer, set_pointer,
  append_record, pointer_key,
}
use clearfeature.Promotion.Moves.{
  PromoteCall, promote, live_record, shadow_record, promoted_pointer, serve, digest_of,
  RollbackCall, rollback, rollback_record, rollback_pointer, target_of,
}
use clearfeature.Promotion.Cases.{
  IsPromoted, promote-eq-ok, promoted_record-cases, promote_live-eq-ok,
}
use clearfeature.Promotion.Audit.{live_stage}

-- The pointer after a move is the one that was set.
pub get_pointer-serve :
    (p : EnvironmentPointer) (r : PromotionRecord) (s : PointerStore)
    → get_pointer p.env p.stage (serve p r s) ≡ some p
unfolding get_pointer serve set_pointer append_record
get_pointer-serve p r s = lookup-insert_self (at p.env p.stage) p s.pointers

-- A promotion keeps the digest that served before.
pub promoted_record-previous :
    (c : PromoteCall) (s s' : PointerStore) (r : PromotionRecord)
    → IsPromoted c s s' r
    → r.previous_digest ≡ digest_of (get_pointer c.env c.stage s)
unfolding shadow_record live_record
promoted_record-previous c s s' r p = elim (promoted_record-cases c s r p.recorded) [
  | inl (shadow, e) ↦ rw (e, shadow) refl
  | inr (other, made) ↦
      rw ((promote_live-eq-ok c s r made).recorded, live_stage c.stage p.staged other) refl
]

-- A rollback of the same pointer to its previous bundle.
abbrev pub IsUndo : PromoteCall → RollbackCall → Type 0
IsUndo c b =
    (b.env ≡ c.env) × (b.stage ≡ c.stage) × (b.to_previous ≡ true) × (is_blank b.reason ≡ false)

rollback_to_previous :
    (b : RollbackCall) (s : PointerStore) (current : EnvironmentPointer) (digest : String)
    → is_blank b.reason ≡ false
    → contains stages b.stage ≡ true
    → b.to_previous ≡ true
    → get_pointer b.env b.stage s ≡ some current
    → current.previous_digest ≡ some digest
    → rollback b s
      ≡ ok (
        serve (rollback_pointer b current digest) (rollback_record b current digest) s,
        rollback_record b current digest,
      )
unfolding rollback target_of
rollback_to_previous b s current digest reasoned staged back there before =
    rw (reasoned, staged, there, back, before) refl

-- A promotion over a pointer that served a bundle can be undone: the rollback of the same
-- environment and stage to the previous bundle, with a reason that is not blank, goes through,
-- and the pointer then serves that bundle again.
pub rollback-promote :
    (c : PromoteCall) (b : RollbackCall) (s s' : PointerStore) (r : PromotionRecord)
    (served : EnvironmentPointer)
    → promote c s ≡ ok (s', r)
    → get_pointer c.env c.stage s ≡ some served
    → IsUndo c b
    → (s'' : PointerStore) × (r' : PromotionRecord) × (now : EnvironmentPointer) × (rollback b s'
        ≡ ok (s'', r'))
      × (get_pointer c.env c.stage s'' ≡ some now)
      × (now.bundle_digest ≡ served.bundle_digest)
rollback-promote c b s s' r served done there (same_env, same_stage, back, reasoned) =
    let p = promote-eq-ok c s s' r done in
    let before : r.previous_digest ≡ some served.bundle_digest =
      rw (promoted_record-previous c s s' r p, there) refl in
    let current = promoted_pointer c r in
    let set : get_pointer c.env c.stage s' ≡ some current =
      rw p.moved (get_pointer-serve current r s) in
    let after = rollback_pointer b current served.bundle_digest in
    (
      serve after (rollback_record b current served.bundle_digest) s',
      rollback_record b current served.bundle_digest,
      after,
      rollback_to_previous b s' current served.bundle_digest reasoned (rw same_stage p.staged) back
          (rw (same_env, same_stage) set) before,
      rw (← same_env, ← same_stage)
          (get_pointer-serve after (rollback_record b current served.bundle_digest) s'),
      refl,
    )
