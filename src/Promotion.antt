-- ===== src/Promotion.antt =====
-- fs_core/registry/promotion.py: a published bundle serves once the pointer of an environment and a
-- stage is moved to it, under the rules of an approval profile. Each move leaves an audit record.
-- The identifier that `uuid4` makes and the clock are arguments.
pub mod Moves
pub mod Cases
pub mod Audit
pub mod Approval
pub mod Undo
pub mod Forms
mod Tests
use clearfeature.Prelude.{
  String, ℕ, ◌≡◌, ◌↔◌, Bool, true, ◌&&◌, Option, none, some, List, [], ◌∷◌, ◌++◌, arith, str_eq,
  eq_iff, Key, Dict, lookup, insert,
}
use clearfeature.Domain.{DateTime}

pub data PromotionError : Type 0 where
  unknown_bundle bad_stage no_reason no_profile unknown_profile : PromotionError
  duplicate_approver too_few_approvers override_without_reason : PromotionError
  not_in_shadow soak_too_short no_pointer no_previous no_digest : PromotionError
  -- Python's TypeError where a naive time is subtracted from an aware one, or the other way round.
  mixed_times : PromotionError

-- `STAGES`
abbrev pub stages : List String
stages = "shadow" ∷ "live" ∷ []

pub record ApprovalProfile : Type 0 where
  pub name : String
  pub required_approvers : ℕ
  pub shadow_min_days : ℕ

abbrev pub profile_bank : ApprovalProfile
profile_bank = record { name = "bank"; required_approvers = 2; shadow_min_days = 7 }

abbrev pub profile_energy : ApprovalProfile
profile_energy = record { name = "energy"; required_approvers = 1; shadow_min_days = 0 }

-- `PROFILES`
abbrev pub profiles : Dict String ApprovalProfile
profiles = ("bank", profile_bank) ∷ ("energy", profile_energy) ∷ []

pub record EnvironmentPointer : Type 0 where
  pub env : String
  pub stage : String
  pub bundle_digest : String
  pub updated_at : DateTime
  pub shadow_started_at : Option DateTime
  pub previous_digest : Option String

pub record PromotionRecord : Type 0 where
  pub promotion_id : String
  pub action : String
  pub env : String
  pub stage : String
  pub bundle_digest : String
  pub previous_digest : Option String
  pub actor : String
  pub reason : String
  pub created_at : DateTime
  pub approved_by : List String
  pub profile : Option String
  pub shadow_started_at : Option DateTime
  pub shadow_age_override : Bool
  pub override_reason : Option String

-- The key `(env, stage)` of a pointer.
pub record PointerKey : Type 0 where
  pub env : String
  pub stage : String

abbrev pub same_pointer : PointerKey → PointerKey → Bool
same_pointer a b = str_eq a.env b.env && str_eq a.stage b.stage

pub same_pointer_iff : (a b : PointerKey) → (same_pointer a b ≡ true) ↔ (a ≡ b)
same_pointer_iff a b = ground (arith, eq_iff a.env b.env, eq_iff a.stage b.stage)

instance abbrev pub pointer_key : Key PointerKey
pointer_key = record { eq = same_pointer; decides = same_pointer_iff }

abbrev pub at : String → String → PointerKey
at env stage = record { env = env; stage = stage }

-- `InMemoryPointerStore`
pub record PointerStore : Type 0 where
  pub pointers : Dict PointerKey EnvironmentPointer
  pub records : List PromotionRecord

abbrev pub empty_store : PointerStore
empty_store = record { pointers = []; records = [] }

unfoldable pub get_pointer : String → String → PointerStore → Option EnvironmentPointer
unfolding lookup
get_pointer env stage s = lookup (at env stage) s.pointers

unfoldable pub set_pointer : EnvironmentPointer → PointerStore → PointerStore
unfolding insert
set_pointer p s = record s { pointers = insert (at p.env p.stage) p s.pointers }

unfoldable pub append_record : PromotionRecord → PointerStore → PointerStore
append_record r s = record s { records = s.records ++ r ∷ [] }
