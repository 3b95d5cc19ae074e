-- ===== src/Promotion/Approval.antt =====
-- The rules that a promotion to live has kept, fs_core/registry/promotion.py.
use clearfeature.Prelude.{
  ℕ, ◌+◌, ◌*◌, ◌≤◌, String, ◌≡◌, true, false, some, ◌⊎◌, length, In, All, IsUnique, is_blank,
  string_key,
}
use clearfeature.Domain.{DateTime, naive, aware}
use clearfeature.Promotion.{
  ApprovalProfile, profile_bank, profile_energy, EnvironmentPointer, PromotionRecord, PointerStore,
  get_pointer,
}
use clearfeature.Promotion.Moves.{PromoteCall, day, blank_text}

-- Approvers that count: different people, each named in the call.
pub record IsApprover (c : PromoteCall) (a : String) : Type 0 where
  pub solid : is_blank a ≡ false
  pub given : In a c.approved_by

-- `days` days, or more, have gone by from `start` to `now`.
abbrev pub HasPassed : ℕ → DateTime → DateTime → Type 0
HasPassed days (aware start) (aware now) = start + days * day ≤ now
HasPassed days (naive start) (naive now) = start + days * day ≤ now
HasPassed days _ _ = ⊥

-- The bundle has been in shadow in the environment for as long as the profile asks.
pub record IsSoaked (c : PromoteCall) (s : PointerStore) (days : ℕ) : Type 0 where
  pub shadow : EnvironmentPointer
  pub start : DateTime
  pub found : get_pointer c.env "shadow" s ≡ some shadow
  pub same_bundle : shadow.bundle_digest ≡ c.bundle_digest
  pub started : shadow.shadow_started_at ≡ some start
  pub passed : HasPassed days start c.now

-- Or the call says, with a reason, that it need not be.
abbrev pub IsOverride : PromoteCall → Type 0
IsOverride c = (c.shadow_age_override ≡ true) × (blank_text c.override_reason ≡ false)

-- What must hold of a promotion to live.
pub record IsApproved (c : PromoteCall) (s : PointerStore) (r : PromotionRecord) : Type 0 where
  pub prof : ApprovalProfile
  pub known : (prof ≡ profile_bank) ⊎ (prof ≡ profile_energy)
  pub named : r.profile ≡ some prof.name
  pub enough : prof.required_approvers ≤ length r.approved_by
  pub distinct : IsUnique r.approved_by
  pub approvers : All (IsApprover c) r.approved_by
  pub waited : IsOverride c ⊎ IsSoaked c s prof.shadow_min_days
