-- ===== src/Propagation/Coalesced.antt =====
-- fs_core/propagation.py: what the entries of the debounce store add up to.
use Prim.Native.Nat.{max}
use clearfeature.Prelude.{
  ℕ, ◌+◌, ◌≡◌, refl, sym, ap, ◌∙◌, inl, inr, Bool, false, none, some, List, [], ◌∷◌, arith,
  if◌then◌else◌, lookup, lookup-insert, Result, ok, err, ◌>>=◌, >>=-eq-ok, ok-injective,
  Option-cases, Bool-cases,
}
use clearfeature.Domain.KeyCodec.{KeyCodecError}
use clearfeature.Propagation.{
  FeatureUpdated, RecomputeCandidate, DebounceKey, DebounceStore, debounce_key_key, key_eq,
  key_eq_iff, debounce_key, new_entry, coalesce, observe_at, observe,
}

pub record Observation : Type 0 where
  pub candidate : RecomputeCandidate
  pub event : FeatureUpdated
  pub now : ℕ

-- Some calls of `observe`, in their order.
unfoldable pub observe_all : List Observation → DebounceStore → Result KeyCodecError DebounceStore
unfolding observe
observe_all [] s = ok s
observe_all (o ∷ os) s = do (s', _) ← observe o.candidate o.event o.now s; observe_all os s'

abbrev pub is_at : DebounceKey → Observation → Bool
is_at k o = elim (debounce_key o.candidate) [ err _ ↦ false | ok key ↦ key_eq key k ]

-- How many of the calls were about the key, and the latest time of their data.
abbrev pub calls_at : DebounceKey → List Observation → ℕ
calls_at k [] = 0
calls_at k (o ∷ os) = if is_at k o then 1 + calls_at k os else calls_at k os

abbrev pub latest_at : DebounceKey → List Observation → ℕ
latest_at k [] = 0
latest_at k (o ∷ os) = if is_at k o then max o.event.data_ts (latest_at k os) else latest_at k os

-- What the store says of a key; 0 where it holds nothing.
abbrev pub counted : DebounceKey → DebounceStore → ℕ
counted k s = elim (lookup k s) [ none ↦ 0 | some e ↦ e.count ]

abbrev pub watermark : DebounceKey → DebounceStore → ℕ
watermark k s = elim (lookup k s) [ none ↦ 0 | some e ↦ e.latest_data_ts ]

observe_at-counts :
    (key k : DebounceKey) (c : RecomputeCandidate) (event : FeatureUpdated) (now : ℕ)
    (s : DebounceStore)
    → (counted k (observe_at key c event now s).0
        ≡ (if key_eq key k then 1 + counted k s else counted k s))
      × (watermark k (observe_at key c event now s).0
          ≡ (if key_eq key k then max event.data_ts (watermark k s) else watermark k s))
unfolding observe_at new_entry coalesce
observe_at-counts key k c event now s = elim (Option-cases (lookup key s)) [
  | inl absent ↦ elim (Bool-cases (key_eq key k)) [
    | inl same ↦
        let e = (key_eq_iff key k).0 same in
        let at_k : lookup k s ≡ none = sym (ap (λ (q : DebounceKey). lookup q s) e) ∙ absent in
        rw
          (
            absent,
            observe_at,
            counted,
            watermark,
            lookup-insert key k (new_entry c event now) s,
            same,
            at_k,
          )
          (omega arith, omega arith)
    | inr other ↦
        rw
          (
            absent,
            observe_at,
            counted,
            watermark,
            lookup-insert key k (new_entry c event now) s,
            other,
          )
          (refl, refl)
  ]
  | inr (entry, held) ↦ elim (Bool-cases (key_eq key k)) [
    | inl same ↦
        let e = (key_eq_iff key k).0 same in
        let at_k : lookup k s ≡ some entry = sym (ap (λ (q : DebounceKey). lookup q s) e) ∙ held in
        rw
          (
            held,
            observe_at,
            counted,
            watermark,
            lookup-insert key k (coalesce event now entry) s,
            same,
            at_k,
          )
          (ground arith)
    | inr other ↦
        rw
          (
            held,
            observe_at,
            counted,
            watermark,
            lookup-insert key k (coalesce event now entry) s,
            other,
          )
          (refl, refl)
  ]
]

-- Every accepted update is counted once, under its own key: after any calls the store holds for
-- each key as many updates as the calls about it and the latest time of their data.
pub observe_all-counts :
    (k : DebounceKey) (os : List Observation) (s s' : DebounceStore)
    → observe_all os s ≡ ok s'
    → (counted k s' ≡ calls_at k os + counted k s)
      × (watermark k s' ≡ max (latest_at k os) (watermark k s))
unfolding observe_all observe
observe_all-counts k [] s s' h = rw (ok-injective h) (omega arith, omega arith)
observe_all-counts k (o ∷ os) s s' h =
    let ((s₁, new), first, later) = >>=-eq-ok (observe o.candidate o.event o.now s) _ h in
    let (key, e, last) = >>=-eq-ok (debounce_key o.candidate) _ first in
    let made : (observe_at key o.candidate o.event o.now s).0 ≡ s₁ =
      ap (λ (p : DebounceStore × Bool). p.0) (ok-injective last) in
    let (count, time) = rw made at (observe_at-counts key k o.candidate o.event o.now s) in
    let (counts, times) = observe_all-counts k os s₁ s' later in
    elim (Bool-cases (key_eq key k)) [
      | inl same ↦
          rw (is_at, calls_at, latest_at, e, same)
            (omega (arith, counts, rw same at count), omega (arith, times, rw same at time))
      | inr other ↦
          rw (is_at, calls_at, latest_at, e, other)
            (omega (arith, counts, rw other at count), omega (arith, times, rw other at time))
    ]
