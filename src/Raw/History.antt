-- ===== src/Raw/History.antt =====
-- The audit trail of fs_core/raw/meta_repository.py over any sequence of writes.
use mathlib.Core.List.{append-nil, append_assoc}
use clearfeature.Prelude.{
  ℕ, String, ◌≡◌, refl, sym, ◌∙◌, ap, Bool, true, false, Option, some, List, [], ◌∷◌, ◌++◌, All,
  All-insert_key, All→In, In, if◌then◌else◌, str_eq, str_eq-cases, inl, inr, Dict, lookup,
  lookup-insert, lookup-insert_ne, string_key, Result, ok, err, some-injective, none≢some,
}
use clearfeature.Raw.Meta.{
  RawReportMeta, CorrectionContext, AvailabilityChange, build_availability_change, MetaRepository,
  RawReportMetaConflictError, add, with_availability, correct, upsert,
}
use clearfeature.Raw.Upsert.{IsUpsert, first, corrected, unchanged, upsert-IsUpsert}

pub record UpsertCall : Type 0 where
  pub meta : RawReportMeta
  pub context : Option CorrectionContext
  pub now : ℕ

-- A call that raises leaves the repository as it was.
abbrev pub after :
    MetaRepository → Result RawReportMetaConflictError (MetaRepository × Bool) → MetaRepository
after s (err _) = s
after s (ok done) = done.0

unfoldable pub upsert_all : List UpsertCall → MetaRepository → MetaRepository
unfolding upsert
upsert_all [] s = s
upsert_all (c ∷ cs) s = upsert_all cs (after s (upsert c.meta c.context c.now s))

-- The report that one audit record leaves.
abbrev pub apply_change : String → AvailabilityChange → RawReportMeta → RawReportMeta
apply_change report_ref change meta =
    if str_eq change.report_ref report_ref
    then record meta {
      available_at = change.new_available_at;
      availability_source = change.new_availability_source;
    }
    else meta

unfoldable pub replay_changes : String → List AvailabilityChange → RawReportMeta → RawReportMeta
replay_changes report_ref [] meta = meta
replay_changes report_ref (change ∷ changes) meta =
    replay_changes report_ref changes (apply_change report_ref change meta)

-- Every report stands under its own reference.
abbrev pub IsKeyed : MetaRepository → Type 0
IsKeyed s = All (λ (p : String × RawReportMeta). p.1.report_ref ≡ p.0) s.metas

-- From `s` to `s'` the report under `report_ref` changed as the audit records added tell.
record IsTold (report_ref : String) (meta : RawReportMeta) (s s' : MetaRepository) : Type 0 where
  pub added : List AvailabilityChange
  pub appended : s'.availability_changes ≡ s.availability_changes ++ added
  pub held : lookup report_ref s'.metas ≡ some (replay_changes report_ref added meta)

lookup-In :
    (k : String) (v : RawReportMeta) (d : Dict String RawReportMeta)
    → lookup k d ≡ some v
    → In (k, v) d
unfolding lookup
lookup-In k v [] h = absurd (none≢some h)
lookup-In k v ((a, w) ∷ d) h = elim (str_eq-cases a k) [
  | inl (t, e) ↦ inl (rw (e, some-injective (rw t at h)) refl)
  | inr (f, _) ↦ inr (lookup-In k v d (rw f at h))
]

IsTold-unchanged :
    (report_ref : String) (meta : RawReportMeta) (s s' : MetaRepository)
    → s'.availability_changes ≡ s.availability_changes
    → lookup report_ref s'.metas ≡ some meta
    → IsTold report_ref meta s s'
unfolding replay_changes
IsTold-unchanged report_ref meta s s' same there = record {
  added = [];
  appended = same ∙ sym (append-nil s.availability_changes);
  held = there;
}

replay_own :
    (report_ref : String) (existing incoming : RawReportMeta) (context : Option CorrectionContext)
    (now : ℕ)
    → str_eq existing.report_ref report_ref ≡ true
    → replay_changes report_ref
        (build_availability_change existing incoming context now ∷ [])
        existing
      ≡ with_availability existing incoming
unfolding replay_changes build_availability_change
replay_own report_ref existing incoming context now own = rw own refl

replay_other :
    (report_ref : String) (meta existing incoming : RawReportMeta)
    (context : Option CorrectionContext) (now : ℕ)
    → str_eq existing.report_ref report_ref ≡ false
    → replay_changes report_ref (build_availability_change existing incoming context now ∷ []) meta
      ≡ meta
unfolding replay_changes build_availability_change
replay_other report_ref meta existing incoming context now other = rw other refl

correct-IsTold :
    (report_ref : String) (meta incoming existing : RawReportMeta)
    (context : Option CorrectionContext) (now : ℕ) (s : MetaRepository)
    → IsKeyed s
    → lookup report_ref s.metas ≡ some meta
    → lookup incoming.report_ref s.metas ≡ some existing
    → IsTold report_ref meta s (correct existing incoming context now s)
correct-IsTold report_ref meta incoming existing context now s keyed there found =
    let own : existing.report_ref ≡ incoming.report_ref =
      All→In (λ (p : String × RawReportMeta). p.1.report_ref ≡ p.0) s.metas keyed
        (incoming.report_ref, existing) (lookup-In incoming.report_ref existing s.metas found) in
    let written =
      lookup-insert incoming.report_ref report_ref (with_availability existing incoming) s.metas in
    record {
      added = build_availability_change existing incoming context now ∷ [];
      appended = refl;
      held = elim (str_eq-cases incoming.report_ref report_ref) [
        | inl (t, e) ↦
            let same : existing ≡ meta =
              some-injective (sym found ∙ ap (λ (k : String). lookup k s.metas) e ∙ there) in
            (rw t at written)
            ∙ ap some (
                sym (
                  ap
                    (λ (m : RawReportMeta).
                      replay_changes report_ref
                        (build_availability_change existing incoming context now ∷ []) m)
                    (sym same)
                  ∙ replay_own report_ref existing incoming context now (rw own t)))
        | inr (f, ne) ↦
            (rw f at written)
            ∙ there
            ∙ ap some (sym (replay_other report_ref meta existing incoming context now (rw own f)))
      ];
    }

-- One call that returns.
upsert-IsTold :
    (report_ref : String) (meta incoming : RawReportMeta) (context : Option CorrectionContext)
    (now : ℕ) (s s' : MetaRepository) (b : Bool)
    → IsKeyed s
    → lookup report_ref s.metas ≡ some meta
    → IsUpsert incoming context now s s' b
    → IsTold report_ref meta s s'
unfolding add
upsert-IsTold report_ref meta incoming context now s s' b keyed there (first away) =
    IsTold-unchanged report_ref meta s (add incoming s) refl (
      lookup-insert_ne incoming.report_ref report_ref incoming s.metas
        (λ e. none≢some (sym away ∙ ap (λ (k : String). lookup k s.metas) e ∙ there))
      ∙ there)
upsert-IsTold report_ref meta incoming context now s s' b keyed there
      (corrected existing found same) =
    correct-IsTold report_ref meta incoming existing context now s keyed there found
upsert-IsTold report_ref meta incoming context now s s' b keyed there (unchanged _ _ _ _) =
    IsTold-unchanged report_ref meta s s refl there

upsert-IsKeyed :
    (incoming : RawReportMeta) (context : Option CorrectionContext) (now : ℕ)
    (s s' : MetaRepository) (b : Bool)
    → IsKeyed s
    → IsUpsert incoming context now s s' b
    → IsKeyed s'
unfolding add
upsert-IsKeyed incoming context now s s' b keyed (first away) =
    All-insert_key (λ k m. m.report_ref ≡ k) incoming.report_ref incoming s.metas refl keyed
upsert-IsKeyed incoming context now s s' b keyed (corrected existing found same) =
    All-insert_key (λ k m. m.report_ref ≡ k) incoming.report_ref
      (with_availability existing incoming) s.metas
      (All→In (λ (p : String × RawReportMeta). p.1.report_ref ≡ p.0) s.metas keyed
        (incoming.report_ref, existing) (lookup-In incoming.report_ref existing s.metas found))
      keyed
upsert-IsKeyed incoming context now s s' b keyed (unchanged _ _ _ _) = keyed

-- One call, refused or not.
after-IsTold :
    (report_ref : String) (meta : RawReportMeta) (c : UpsertCall) (s : MetaRepository)
    → IsKeyed s
    → lookup report_ref s.metas ≡ some meta
    → (r : Result RawReportMetaConflictError (MetaRepository × Bool))
    → upsert c.meta c.context c.now s ≡ r
    → IsKeyed (after s r) × IsTold report_ref meta s (after s r)
after-IsTold report_ref meta c s keyed there (err _) done =
    (keyed, IsTold-unchanged report_ref meta s s refl there)
after-IsTold report_ref meta c s keyed there (ok (s', b)) done =
    let outcome = upsert-IsUpsert c.meta c.context c.now s s' b done in
    (
      upsert-IsKeyed c.meta c.context c.now s s' b keyed outcome,
      upsert-IsTold report_ref meta c.meta c.context c.now s s' b keyed there outcome,
    )

replay_changes-append :
    (report_ref : String) (front back : List AvailabilityChange) (meta : RawReportMeta)
    → replay_changes report_ref (front ++ back) meta
      ≡ replay_changes report_ref back (replay_changes report_ref front meta)
unfolding replay_changes
replay_changes-append report_ref [] back meta = refl
replay_changes-append report_ref (c ∷ front) back meta =
    replay_changes-append report_ref front back (apply_change report_ref c meta)

-- Over any sequence of writes, refused ones included, a report that a repository holds under its
-- own reference stays there, and differs from what it was only by what the audit records that were
-- appended tell: its availability is that of the last correction of this report, and everything
-- else, its first creation time included, is as before.
pub upsert_all-replay :
    (calls : List UpsertCall) (s : MetaRepository) (report_ref : String) (meta : RawReportMeta)
    → IsKeyed s
    → lookup report_ref s.metas ≡ some meta
    → (added : List AvailabilityChange) × ((upsert_all calls s).availability_changes
        ≡ s.availability_changes ++ added)
      × (lookup report_ref (upsert_all calls s).metas ≡ some (replay_changes report_ref added meta))
unfolding upsert_all replay_changes
upsert_all-replay [] s report_ref meta keyed there =
    ([], sym (append-nil s.availability_changes), there)
upsert_all-replay (c ∷ calls) s report_ref meta keyed there =
    let r = upsert c.meta c.context c.now s in
    let (keyed', once) = after-IsTold report_ref meta c s keyed there r refl in
    let (added, appended, held) =
      upsert_all-replay calls (after s r) report_ref (replay_changes report_ref once.added meta)
        keyed' once.held in
    (
      once.added ++ added,
      appended
          ∙ ap (λ (cs : List AvailabilityChange). cs ++ added) once.appended
          ∙ append_assoc s.availability_changes once.added added,
      held ∙ ap some (sym (replay_changes-append report_ref once.added added meta)),
    )
