-- ===== src/Propagation.antt =====
-- fs_core/propagation.py: the debounce store, which coalesces the updates of one entity and one
-- dependent feature into one unit of work. The clock is an argument.
pub mod Coalesced
pub mod Wave
pub mod Indexed
pub mod Candidates
pub mod Planned
mod Tests
mod WaveTests
use clearfeature.Prelude.{
  ℕ, ◌+◌, String, ◌≡◌, ◌↔◌, Bool, true, false, ◌&&◌, Option, none, some, List, [], ◌∷◌, ◌++◌, map,
  arith, leb, ◌==◌, if◌then◌else◌, str_eq, eq_iff, Key, Dict, string_key, lookup, insert, Result,
  ok, ◌>>=◌,
}
use clearfeature.Domain.KeyCodec.{KeyCodecError, encode_entity_key}
use clearfeature.Events.Entity.{EntityRef}

-- `EntityRef.encoded`
unfoldable pub encoded : EntityRef → Result KeyCodecError String
unfolding encode_entity_key
encoded e = encode_entity_key e.entity_key none

-- What the store reads of a `FeatureUpdated`.
pub record FeatureUpdated : Type 0 where
  pub update_id : String
  pub data_ts : ℕ
  pub calc_ts : ℕ

pub record RecomputeCandidate : Type 0 where
  pub entity : EntityRef
  pub view : String
  pub view_version : ℕ
  pub dependent_feature : String
  pub dependent_version : ℕ
  pub changed_input_feature : String
  pub changed_input_version : ℕ
  pub policy : String
  pub reason : String

pub record DebounceEntry : Type 0 where
  pub entity : EntityRef
  pub view : String
  pub view_version : ℕ
  pub dependent_feature : String
  pub dependent_version : ℕ
  pub changed_input_feature : String
  pub changed_input_version : ℕ
  pub latest_update_id : String
  pub latest_data_ts : ℕ
  pub latest_calc_ts : ℕ
  pub first_seen_at : ℕ
  pub updated_at : ℕ
  pub count : ℕ
  pub trigger_update_ids : List String

-- The tuple of `_key`.
pub record DebounceKey : Type 0 where
  pub entity_type : String
  pub entity : String
  pub view : String
  pub view_version : ℕ
  pub dependent_feature : String
  pub dependent_version : ℕ

abbrev pub key_eq : DebounceKey → DebounceKey → Bool
key_eq a b =
    str_eq a.entity_type b.entity_type
    && str_eq a.entity b.entity
    && str_eq a.view b.view
    && (a.view_version == b.view_version)
    && str_eq a.dependent_feature b.dependent_feature
    && (a.dependent_version == b.dependent_version)

pub key_eq_iff : (a b : DebounceKey) → (key_eq a b ≡ true) ↔ (a ≡ b)
key_eq_iff a b = ground (
  arith,
  eq_iff a.entity_type b.entity_type,
  eq_iff a.entity b.entity,
  eq_iff a.view b.view,
  eq_iff a.dependent_feature b.dependent_feature,
)

instance abbrev pub debounce_key_key : Key DebounceKey
debounce_key_key = record { eq = key_eq; decides = key_eq_iff }

-- `_key`
unfoldable pub debounce_key : RecomputeCandidate → Result KeyCodecError DebounceKey
unfolding encoded
debounce_key c = do
  text ← encoded c.entity
  ok (record {
    entity_type = c.entity.entity_type;
    entity = text;
    view = c.view;
    view_version = c.view_version;
    dependent_feature = c.dependent_feature;
    dependent_version = c.dependent_version;
  })

-- `_entries`
abbrev pub DebounceStore : Type 0
DebounceStore = Dict DebounceKey DebounceEntry

unfoldable pub new_entry : RecomputeCandidate → FeatureUpdated → ℕ → DebounceEntry
new_entry c event now = record {
  entity = c.entity;
  view = c.view;
  view_version = c.view_version;
  dependent_feature = c.dependent_feature;
  dependent_version = c.dependent_version;
  changed_input_feature = c.changed_input_feature;
  changed_input_version = c.changed_input_version;
  latest_update_id = event.update_id;
  latest_data_ts = event.data_ts;
  latest_calc_ts = event.calc_ts;
  first_seen_at = now;
  updated_at = now;
  count = 1;
  trigger_update_ids = event.update_id ∷ [];
}

-- The changes to an entry that is there.
unfoldable pub coalesce : FeatureUpdated → ℕ → DebounceEntry → DebounceEntry
coalesce event now entry =
    let seen = record entry {
      count = entry.count + 1;
      updated_at = now;
      trigger_update_ids = entry.trigger_update_ids ++ event.update_id ∷ [];
    } in
    if leb entry.latest_data_ts event.data_ts
    then record seen {
      latest_update_id = event.update_id;
      latest_data_ts = event.data_ts;
      latest_calc_ts = event.calc_ts;
    }
    else seen

-- `observe`, of a candidate whose key was made: the store, and whether the unit is new.
unfoldable pub observe_at :
    DebounceKey → RecomputeCandidate → FeatureUpdated → ℕ → DebounceStore → DebounceStore × Bool
unfolding lookup insert new_entry coalesce
observe_at key c event now s = elim (lookup key s) [
  | none ↦ (insert key (new_entry c event now) s, true)
  | some entry ↦ (insert key (coalesce event now entry) s, false)
]

unfoldable pub observe :
    RecomputeCandidate
    → FeatureUpdated
    → ℕ
    → DebounceStore
    → Result KeyCodecError (DebounceStore × Bool)
unfolding debounce_key observe_at
observe c event now s = do key ← debounce_key c; ok (observe_at key c event now s)

unfoldable pub pending : DebounceStore → List DebounceEntry
pending s = map (λ e. e.1) s

unfoldable pub drain : DebounceStore → DebounceStore × List DebounceEntry
drain s = ([], map (λ e. e.1) s)
