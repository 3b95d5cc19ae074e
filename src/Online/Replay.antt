-- ===== src/Online/Replay.antt =====
-- fs_core/stores/online.py: replays of calls that were made before, and the order of the calls.
use mathlib.Core.Bool.{false≢true}
use clearfeature.Prelude.{
  ℕ, String, ◌≡◌, refl, sym, ◌∙◌, ap, ◌≢◌, ◌↔◌, inl, inr, false, Option, none, some, List, [], ◌∷◌,
  In, arith, lookup, Bool-cases, str_eq_self,
}
use clearfeature.Domain.{FeatureResult, trusted_available_at}
use clearfeature.WriteGuard.{
  noop, Freshness, decide_write, is_write, availability_differs, or_empty,
}
use clearfeature.WriteGuard.Order.{AtMost, AtMost-antisym}
use clearfeature.Online.{
  OnlineKey, OnlineStore, online_key_key, key_eq, key_eq_iff, result_key, freshness, outcome_of,
  write,
}
use clearfeature.Online.Fresh.{
  Submission, key_of, write_all, write_all-IsFreshest, chosen, lookup-write_self, lookup-write_ne,
  lookup-write_at,
}

availability_differs_self : (a : Option ℕ) → availability_differs a a ≡ false
availability_differs_self none = refl
availability_differs_self (some n) = ground arith

module _ {V : Type 0} where
  outcome_self : (r : FeatureResult V) → outcome_of (some r) r ≡ noop
  unfolding outcome_of decide_write
  outcome_self r = ground (
    arith,
    str_eq_self (or_empty r.input_fingerprint),
    availability_differs_self (trusted_available_at r),
  )

  outcome-chosen :
      (old : Option (FeatureResult V)) (r : FeatureResult V)
      → is_write (outcome_of (some (chosen old r)) r) ≡ false
  outcome-chosen none r = ap is_write (outcome_self r)
  outcome-chosen (some e) r = ground (arith, outcome_self r)

  -- A result that is written again, right after it was written, changes nothing: the second call
  -- returns the store as it is and no outcome that stores a value.
  pub write-write_self :
      (view : String) (version : ℕ) (r : FeatureResult V) (s : OnlineStore V)
      → let s' = (write view version r s).0 in
        ((write view version r s').0 ≡ s') × (is_write (write view version r s').1 ≡ false)
  write-write_self view version r s =
      let s' = (write view version r s).0 in
      let key = result_key view version r in
      let old = lookup key s in
      let quiet : is_write (outcome_of (lookup key s') r) ≡ false =
        rw (lookup-write_self view version r s) (outcome-chosen old r) in
      unfold write in (rw quiet, quiet)

  write-some :
      (w : Submission V) (s : OnlineStore V) (k : OnlineKey)
      → lookup k (write w.view w.view_version w.result s).0 ≡ none
      → (key_of w ≢ k) × (lookup k s ≡ none)
  write-some w s k h = elim (Bool-cases (key_eq (key_of w) k)) [
    | inl same ↦ cc (lookup-write_at k w s ((key_eq_iff (key_of w) k).0 same), h)
    | inr other ↦
        let ne = λ (e : key_of w ≡ k). false≢true (sym other ∙ (key_eq_iff (key_of w) k).1 e) in
        (ne, sym (lookup-write_ne w.view w.view_version w.result s k ne) ∙ h)
  ]

  -- A key under which nothing is stored was never written.
  pub write_all-none :
      (k : OnlineKey) (ws : List (Submission V)) (s : OnlineStore V)
      → lookup k (write_all ws s) ≡ none
      → (lookup k s ≡ none) × ((w : Submission V) → In w ws → key_of w ≢ k)
  unfolding write_all
  write_all-none k [] s h = (h, λ w i. elim i [ ])
  write_all-none k (w ∷ ws) s h =
      let (after, none_later) = write_all-none k ws (write w.view w.view_version w.result s).0 h in
      let (ne, before) = write-some w s k after in
      (before, λ c i. elim i [ inl e ↦ rw e ne | inr j ↦ none_later c j ])

  module _ (ws ws' : List (Submission V)) (same : (w : Submission V) → In w ws ↔ In w ws')
      (k : OnlineKey) (r : FeatureResult V) where
    unwritten : lookup k (write_all ws []) ≡ some r → lookup k (write_all ws' []) ≡ none → ⊥
    unwritten p q =
        let f = write_all-IsFreshest k ws r p in
        (write_all-none k ws' [] q).1 f.call ((same f.call).0 f.called) f.at_key

    not_fresher :
        (r' : FeatureResult V)
        → lookup k (write_all ws []) ≡ some r
        → lookup k (write_all ws' []) ≡ some r'
        → AtMost (freshness r) (freshness r')
    not_fresher r' p q =
        let f = write_all-IsFreshest k ws r p in
        let f' = write_all-IsFreshest k ws' r' q in
        rw f.its_result at (f'.freshest f.call ((same f.call).0 f.called) f.at_key)

  abbrev pub stored : OnlineKey → OnlineStore V → Option Freshness
  stored k s = elim (lookup k s) [ none ↦ none | some r ↦ some (freshness r) ]

  -- Two stores that began empty and saw the same calls, in whatever orders and however often, hold
  -- the same freshness under every key.
  pub write_all_converges :
      (ws ws' : List (Submission V))
      → ((w : Submission V) → In w ws ↔ In w ws')
      → (k : OnlineKey) → stored k (write_all ws []) ≡ stored k (write_all ws' [])
  write_all_converges ws ws' same k =
      both (lookup k (write_all ws [])) (lookup k (write_all ws' [])) refl refl
    where
      both :
          (a b : Option (FeatureResult V))
          → lookup k (write_all ws []) ≡ a
          → lookup k (write_all ws' []) ≡ b
          → (elim a [ none ↦ none | some r ↦ some (freshness r) ])
            ≡ (elim b [ none ↦ none | some r ↦ some (freshness r) ])
      both none none p q = refl
      both (some r) none p q = absurd (unwritten ws ws' same k r p q)
      both none (some r) p q = absurd (unwritten ws' ws (λ w. ((same w).1, (same w).0)) k r q p)
      both (some r) (some r') p q = ap some (
          AtMost-antisym _ _ (not_fresher ws ws' same k r r' p q)
            (not_fresher ws' ws (λ w. ((same w).1, (same w).0)) k r' r q p))
