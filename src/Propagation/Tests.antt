-- ===== src/Propagation/Tests.antt =====
-- Runs of the debounce store of fs_core/propagation.py.
use Prim.Native.Nat.{max}
use clearfeature.Prelude.{ℕ, ◌+◌, String, ◌≡◌, refl, List, [], ◌∷◌, ok}
use clearfeature.Domain.KeyCodec.{encode_entity_key}
use clearfeature.Propagation.{
  RecomputeCandidate, DebounceEntry, DebounceKey, DebounceStore, debounce_key_key, observe, pending,
  drain,
}
use clearfeature.Propagation.Coalesced.{
  Observation, observe_all, calls_at, latest_at, counted, watermark, observe_all-counts,
}

abbrev candidate : String → RecomputeCandidate
candidate feature = record {
  entity = record { entity_type = "user"; entity_key = ("user_id", "7") ∷ [] };
  view = "risk";
  view_version = 2;
  dependent_feature = feature;
  dependent_version = 1;
  changed_input_feature = "income";
  changed_input_version = 1;
  policy = "reactive";
  reason = "reactive_edge";
}

abbrev update : String → String → ℕ → Observation
update feature id data_ts = record {
  candidate = candidate feature;
  event = record { update_id = id; data_ts = data_ts; calc_ts = data_ts };
  now = 50;
}

-- A late update is counted and does not move the watermark back.
abbrev updates : List Observation
updates = update "ratio" "a" 5 ∷ update "score" "b" 6 ∷ update "ratio" "c" 4 ∷ []

abbrev key_of : String → DebounceKey
key_of feature = record {
  entity_type = "user";
  entity = "user_id=7";
  view = "risk";
  view_version = 2;
  dependent_feature = feature;
  dependent_version = 1;
}

abbrev entry : String → List String → ℕ → ℕ → String → DebounceEntry
entry feature ids count time latest = record {
  entity = record { entity_type = "user"; entity_key = ("user_id", "7") ∷ [] };
  view = "risk";
  view_version = 2;
  dependent_feature = feature;
  dependent_version = 1;
  changed_input_feature = "income";
  changed_input_version = 1;
  latest_update_id = latest;
  latest_data_ts = time;
  latest_calc_ts = time;
  first_seen_at = 50;
  updated_at = 50;
  count = count;
  trigger_update_ids = ids;
}

abbrev after : DebounceStore
after =
    (key_of "ratio", entry "ratio" ("a" ∷ "c" ∷ []) 2 5 "a")
    ∷ (key_of "score", entry "score" ("b" ∷ []) 1 6 "b")
    ∷ []

observed : observe_all updates [] ≡ ok after
unfolding observe_all observe encode_entity_key
observed = refl

drained : (drain after ≡ ([], pending after))
unfolding drain pending
drained = refl

observe_all-counts_example :
    (counted (key_of "ratio") after
      ≡ calls_at (key_of "ratio") updates + counted (key_of "ratio") [])
    × (watermark (key_of "ratio") after
        ≡ max (latest_at (key_of "ratio") updates) (watermark (key_of "ratio") []))
observe_all-counts_example = observe_all-counts (key_of "ratio") updates [] after observed
