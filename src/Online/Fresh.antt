-- ===== src/Online/Fresh.antt =====
-- fs_core/stores/online.py: under every key stands the freshest result that was written there.
use mathlib.Core.Path.{subst}
use mathlib.Core.Bool.{false≢true}
use mathlib.Core.Option.{some-injective}
use clearfeature.Prelude.{
  ℕ, String, ◌≡◌, refl, sym, ◌∙◌, ap, ◌≢◌, ◌⊎◌, inl, inr, Option, none, some, List, [], ◌∷◌, In,
  arith, if◌then◌else◌, lookup, lookup-insert_self, lookup-insert_ne, Bool-cases, eq_iff,
}
use clearfeature.Domain.{FeatureResult}
use clearfeature.WriteGuard.{decide_write, is_write}
use clearfeature.WriteGuard.Order.{AtMost, AtMost-refl, AtMost-trans}
use clearfeature.Online.{
  OnlineKey, OnlineStore, online_key_key, key_eq, key_eq_iff, result_key, freshness, outcome_of,
  write,
}

module _ {V : Type 0} where
  -- What the store holds after one write under the written key.
  abbrev pub chosen : Option (FeatureResult V) → FeatureResult V → FeatureResult V
  chosen old r = elim old [ none ↦ r | some e ↦ if is_write (outcome_of (some e) r) then r else e ]

  pub lookup-write_self :
      (view : String) (version : ℕ) (r : FeatureResult V) (s : OnlineStore V)
      → lookup (result_key view version r) (write view version r s).0
        ≡ some (chosen (lookup (result_key view version r) s) r)
  unfolding write outcome_of decide_write
  lookup-write_self view version r s =
      ground (arith, lookup-insert_self (result_key view version r) r s)

  -- A write leaves every other key as it was.
  pub lookup-write_ne :
      (view : String) (version : ℕ) (r : FeatureResult V) (s : OnlineStore V) (k : OnlineKey)
      → result_key view version r ≢ k
      → lookup k (write view version r s).0 ≡ lookup k s
  unfolding write
  lookup-write_ne view version r s k h =
      ground (arith, lookup-insert_ne (result_key view version r) k r s h)

  chosen-cases :
      (old : Option (FeatureResult V)) (r : FeatureResult V)
      → (chosen old r ≡ r) ⊎ (old ≡ some (chosen old r))
  chosen-cases none r = inl refl
  chosen-cases (some e) r = ground arith

  AtMost-chosen :
      (old : Option (FeatureResult V)) (r : FeatureResult V)
      → AtMost (freshness r) (freshness (chosen old r))
  unfolding outcome_of decide_write
  AtMost-chosen none r = AtMost-refl _
  AtMost-chosen (some e) r = ground (arith, eq_iff "" "")

  AtMost-chosen_old : (e r : FeatureResult V) → AtMost (freshness e) (freshness (chosen (some e) r))
  unfolding outcome_of decide_write
  AtMost-chosen_old e r = ground arith

-- One call of `write`.
pub record Submission (V : Type 0) : Type 0 where
  pub view : String
  pub view_version : ℕ
  pub result : FeatureResult V

module _ {V : Type 0} where
  abbrev pub key_of : Submission V → OnlineKey
  key_of w = result_key w.view w.view_version w.result

  -- The store after some calls of `write`, in their order.
  unfoldable pub write_all : List (Submission V) → OnlineStore V → OnlineStore V
  write_all [] s = s
  write_all (w ∷ ws) s = write_all ws (write w.view w.view_version w.result s).0

  pub lookup-write_at :
      (k : OnlineKey) (w : Submission V) (s : OnlineStore V)
      → key_of w ≡ k
      → lookup k (write w.view w.view_version w.result s).0 ≡ some (chosen (lookup k s) w.result)
  lookup-write_at k w s e =
      let s' = (write w.view w.view_version w.result s).0 in
      subst (λ (k : OnlineKey). lookup k s' ≡ some (chosen (lookup k s) w.result)) e
        (lookup-write_self w.view w.view_version w.result s)

  -- `r` is the result of one of the calls at the key, and no such call was fresher.
  pub record IsFreshest (k : OnlineKey) (ws : List (Submission V)) (r : FeatureResult V)
      : Type 0 where
    pub call : Submission V
    pub called : In call ws
    pub at_key : key_of call ≡ k
    pub its_result : call.result ≡ r
    pub freshest :
        (w : Submission V) → In w ws → key_of w ≡ k → AtMost (freshness w.result) (freshness r)

  -- How a stored result relates to the one before the calls.
  record After (k : OnlineKey) (ws : List (Submission V)) (old : Option (FeatureResult V))
      (r : FeatureResult V) : Type 0 where
    origin : (old ≡ some r) ⊎ ((w : Submission V) × In w ws × (key_of w ≡ k) × (w.result ≡ r))
    above_old : (e : FeatureResult V) → old ≡ some e → AtMost (freshness e) (freshness r)
    above_calls :
        (w : Submission V) → In w ws → key_of w ≡ k → AtMost (freshness w.result) (freshness r)

  module _ (k : OnlineKey) (w : Submission V) (ws : List (Submission V))
      (old : Option (FeatureResult V)) (r : FeatureResult V) where
    After-other : key_of w ≢ k → After k ws old r → After k (w ∷ ws) old r
    After-other other a = record {
      origin = elim a.origin [ inl e ↦ inl e | inr (c, i, at, res) ↦ inr (c, inr i, at, res) ];
      above_old = a.above_old;
      above_calls = λ c i at. elim i [
        | inl e ↦ absurd (other (ap key_of (sym e) ∙ at))
        | inr j ↦ a.above_calls c j at
      ];
    }

    After-same : key_of w ≡ k → After k ws (some (chosen old w.result)) r → After k (w ∷ ws) old r
    After-same same a = record {
      origin = elim a.origin [
        | inl e ↦ elim (chosen-cases old w.result) [
          | inl c ↦ inr (w, inl refl, same, sym c ∙ some-injective _ _ e)
          | inr c ↦ inl (c ∙ e)
        ]
        | inr (c, i, at, res) ↦ inr (c, inr i, at, res)
      ];
      above_old = λ e p.
          AtMost-trans (freshness e) (freshness (chosen (some e) w.result)) (freshness r)
            (AtMost-chosen_old e w.result) (a.above_old _ (ap (λ o. some (chosen o w.result)) p));
      above_calls = λ c i at. elim i [
        | inl e ↦ rw e (AtMost-trans _ _ _ (AtMost-chosen old w.result) (a.above_old _ refl))
        | inr j ↦ a.above_calls c j at
      ];
    }

  write_all-After :
      (k : OnlineKey) (ws : List (Submission V)) (s : OnlineStore V) (r : FeatureResult V)
      → lookup k (write_all ws s) ≡ some r
      → After k ws (lookup k s) r
  unfolding write_all
  write_all-After k [] s r h = record {
    origin = inl h;
    above_old = λ e p. rw (some-injective _ _ (sym p ∙ h)) (AtMost-refl _);
    above_calls = λ w i. elim i [ ];
  }
  write_all-After k (w ∷ ws) s r h =
      let s' = (write w.view w.view_version w.result s).0 in
      let rest = write_all-After k ws s' r h in
      elim (Bool-cases (key_eq (key_of w) k)) [
        | inl same ↦
            let e = (key_eq_iff (key_of w) k).0 same in
            After-same k w ws (lookup k s) r e (rw (lookup-write_at k w s e) at rest)
        | inr other ↦
            let ne = λ (e : key_of w ≡ k). false≢true (sym other ∙ (key_eq_iff (key_of w) k).1 e) in
            After-other k w ws (lookup k s) r ne
              (rw (lookup-write_ne w.view w.view_version w.result s k ne) at rest)
      ]

  -- What a store that began empty holds under a key is the freshest of the results written there,
  -- whatever the order of the calls.
  pub write_all-IsFreshest :
      (k : OnlineKey) (ws : List (Submission V)) (r : FeatureResult V)
      → lookup k (write_all ws []) ≡ some r
      → IsFreshest k ws r
  unfolding lookup
  write_all-IsFreshest k ws r h =
      let a = write_all-After k ws [] r h in
      elim a.origin [
        | inl e ↦ cc
        | inr (c, i, at, res) ↦ record {
          call = c;
          called = i;
          at_key = at;
          its_result = res;
          freshest = a.above_calls;
        }
      ]
