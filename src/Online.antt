-- ===== src/Online.antt =====
-- fs_core/stores/online.py: the latest value under each serving key, behind the write guard.
pub mod Fresh
pub mod Replay
mod Tests
use clearfeature.Prelude.{
  ℕ, String, ◌≡◌, ◌↔◌, Bool, true, ◌&&◌, Option, none, some, List, [], ◌∷◌, arith, ◌==◌,
  if◌then◌else◌, str_eq, eq_iff, Key, Dict, string_key, lookup, insert,
}
use clearfeature.Domain.{
  EntityKey, encode, FeatureRef, encode_ref, FeatureResult, trusted_available_at,
}
use clearfeature.WriteGuard.{Outcome, Freshness, guard_tuple, decide_write, is_write}

-- `_Key`
pub record OnlineKey : Type 0 where
  pub entity : String
  pub view : String
  pub view_version : ℕ
  pub feature_name : String
  pub feature_version : ℕ

abbrev pub key_eq : OnlineKey → OnlineKey → Bool
key_eq a b =
    str_eq a.entity b.entity
    && str_eq a.view b.view
    && (a.view_version == b.view_version)
    && str_eq a.feature_name b.feature_name
    && (a.feature_version == b.feature_version)

pub key_eq_iff : (a b : OnlineKey) → (key_eq a b ≡ true) ↔ (a ≡ b)
key_eq_iff a b =
    ground
      (arith, eq_iff a.entity b.entity, eq_iff a.view b.view, eq_iff a.feature_name b.feature_name)

instance abbrev pub online_key_key : Key OnlineKey
online_key_key = record { eq = key_eq; decides = key_eq_iff }

unfoldable pub make_key : String → ℕ → EntityKey → String → ℕ → OnlineKey
make_key view view_version entity feature_name feature_version = record {
  entity = encode entity;
  view = view;
  view_version = view_version;
  feature_name = feature_name;
  feature_version = feature_version;
}

-- `_values`
abbrev pub OnlineStore : Type 0 → Type 0
OnlineStore V = Dict OnlineKey (FeatureResult V)

module _ {V : Type 0} where
  -- The key under which a result is stored.
  unfoldable pub result_key : String → ℕ → FeatureResult V → OnlineKey
  unfolding make_key
  result_key view view_version r = make_key view view_version r.entity r.ref.name r.ref.version

  abbrev pub freshness : FeatureResult V → Freshness
  freshness r = guard_tuple r.data_ts r.max_input_data_ts

  unfoldable pub outcome_of : Option (FeatureResult V) → FeatureResult V → Outcome
  outcome_of none r =
      decide_write (freshness r) r.input_fingerprint none none (trusted_available_at r) none
  outcome_of (some existing) r =
      decide_write (freshness r) r.input_fingerprint (some (freshness existing))
        existing.input_fingerprint (trusted_available_at r) (trusted_available_at existing)

  unfoldable pub write : String → ℕ → FeatureResult V → OnlineStore V → OnlineStore V × Outcome
  unfolding outcome_of result_key
  write view view_version r s =
      let key = result_key view view_version r in
      let outcome = outcome_of (lookup key s) r in
      (if is_write outcome then insert key r s else s, outcome)

  -- The outcomes are a dictionary by `result.ref.encode()`.
  write_many_from :
      String
      → ℕ
      → List (FeatureResult V)
      → Dict String Outcome
      → OnlineStore V
      → OnlineStore V × Dict String Outcome
  unfolding insert
  write_many_from view view_version [] outcomes s = (s, outcomes)
  write_many_from view view_version (r ∷ rest) outcomes s =
      let (s', outcome) = write view view_version r s in
      write_many_from view view_version rest (insert (encode_ref r.ref) outcome outcomes) s'

  unfoldable pub write_many :
      String → ℕ → List (FeatureResult V) → OnlineStore V → OnlineStore V × Dict String Outcome
  unfolding write_many_from
  write_many view view_version results s = write_many_from view view_version results [] s

  unfoldable pub get :
      String → ℕ → EntityKey → String → ℕ → OnlineStore V → Option (FeatureResult V)
  unfolding make_key lookup
  get view view_version entity feature_name feature_version s =
      lookup (make_key view view_version entity feature_name feature_version) s
