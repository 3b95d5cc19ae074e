-- ===== src/Pit.antt =====
-- fs_core/pit.py: which offline records may be used for an observation, and the latest of them.
pub mod Select
pub mod Store
mod Tests
use clearfeature.Prelude.{
  ℕ, ◌+◌, ◌-◌, String, ◌≡◌, refl, Bool, true, false, ◌&&◌, Option, none, some, List, [], ◌∷◌, arith,
  ltb, leb, ◌==◌, if◌then◌else◌, Result, ok, err, ◌>>=◌, ℤ, pos, negsuc,
}
use clearfeature.Domain.{DateTime, naive, aware, EntityKey, FeatureResult}
use clearfeature.Offline.{OfflineRecord, OfflineStore, get, one_feature}

-- `type_error` is Python's refusal to order a naive and an aware datetime, `out_of_range` the
-- `OverflowError` of a date before the year 1.
pub data PitError : Type 0 where
  not_aware negative_gap type_error out_of_range : PitError

-- A `timedelta` is an integer of microseconds.
unfoldable pub effective_data_cutoff : DateTime → ℤ → Result PitError ℕ
effective_data_cutoff (naive _) safety_gap = err not_aware
effective_data_cutoff (aware t) (negsuc _) = err negative_gap
effective_data_cutoff (aware t) (pos gap) = if ltb t gap then err out_of_range else ok (t - gap)

module _ {V : Type 0} where
  -- The clock of availability: the trusted or ingested one if there is one, else `calc_ts`.
  unfoldable pub effective_available : FeatureResult V → ℕ
  effective_available r = elim r.available_at [ none ↦ r.calc_ts | some t ↦ t ]

  unfoldable pub is_pit_eligible : OfflineRecord V → DateTime → ℤ → Result PitError Bool
  unfolding effective_data_cutoff effective_available
  is_pit_eligible r (naive _) safety_gap = err not_aware
  is_pit_eligible r (aware t) safety_gap = do
    cutoff ← effective_data_cutoff (aware t) safety_gap
    ok (leb r.result.data_ts cutoff && leb (effective_available r.result) t)

  -- `record.result.data_ts > observation_ts`
  unfoldable pub is_future : OfflineRecord V → DateTime → Result PitError Bool
  is_future r (naive _) = err type_error
  is_future r (aware t) = ok (ltb t r.result.data_ts)

  -- `(a.data_ts, a.calc_ts) >= (b.data_ts, b.calc_ts)`
  abbrev pub not_older : OfflineRecord V → OfflineRecord V → Bool
  not_older a b =
      if a.result.data_ts == b.result.data_ts
      then leb b.result.calc_ts a.result.calc_ts
      else ltb b.result.data_ts a.result.data_ts

  unfoldable pub newer : Option (OfflineRecord V) → OfflineRecord V → Option (OfflineRecord V)
  newer none r = some r
  newer (some s) r = if not_older r s then some r else some s

  -- One round of the loop, over `(selected, future_records_ignored)`.
  unfoldable pub consider :
      DateTime
      → ℤ
      → OfflineRecord V
      → Option (OfflineRecord V) × ℕ
      → Result PitError (Option (OfflineRecord V) × ℕ)
  unfolding is_future is_pit_eligible newer
  consider observation_ts safety_gap r (selected, ignored) = do
    future ← is_future r observation_ts
    let ignored' : ℕ = if future then ignored + 1 else ignored
    eligible ← is_pit_eligible r observation_ts safety_gap
    ok (if eligible then (newer selected r, ignored') else (selected, ignored'))

  unfoldable pub select_from :
      DateTime
      → ℤ
      → List (OfflineRecord V)
      → Option (OfflineRecord V) × ℕ
      → Result PitError (Option (OfflineRecord V) × ℕ)
  unfolding consider
  select_from observation_ts safety_gap [] state = ok state
  select_from observation_ts safety_gap (r ∷ rs) state = do
    state' ← consider observation_ts safety_gap r state
    select_from observation_ts safety_gap rs state'

  unfoldable pub select_pit :
      List (OfflineRecord V) → DateTime → ℤ → Result PitError (Option (OfflineRecord V) × ℕ)
  unfolding select_from
  select_pit records observation_ts safety_gap =
      select_from observation_ts safety_gap records (none, 0)

  -- `InMemoryOfflineStore.get_pit`
  unfoldable pub get_pit :
      EntityKey
      → String
      → ℕ
      → String
      → ℕ
      → DateTime
      → ℤ
      → OfflineStore V
      → Result PitError (Option (OfflineRecord V))
  unfolding get select_pit
  get_pit entity name version view view_version observation_ts safety_gap s = do
    (selected, _) ←
        select_pit (get entity (one_feature name version view view_version) s) observation_ts
          safety_gap
    ok selected
