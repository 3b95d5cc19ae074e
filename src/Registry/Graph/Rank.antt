-- ===== src/Registry/Graph/Rank.antt =====
-- fs_core/registry/validator.py: the memo that `_depth` leaves ranks every feature above those
-- that it depends on, within the cap.
use Prim.Native.Nat.{max}
use mathlib.Core.Path.{subst}
use mathlib.Core.Option.{some-injective}
use clearfeature.Prelude.{
  ℕ, zero, suc, ◌+◌, ◌≤◌, ◌<◌, String, ◌≡◌, refl, sym, ◌∙◌, ap, inl, inr, none, some, List, [], ◌∷◌,
  ◌++◌, In, In-append_left, In-append_right, All, All-map, arith, ltb, contains, Dict, string_key,
  lookup, insert, lookup-insert_self, lookup-insert_ne, str_eq-cases, not-In, Result, ok, >>=-eq-ok,
  Bool-cases, Option-cases,
}
use clearfeature.Registry.{FeatureDependency, FeatureDef}
use clearfeature.Registry.Validator.{
  ValidationError, Memo, deepest, depth_over, enter, depth_of, depth_all,
}

abbrev pub Extends : Memo → Memo → Type 0
Extends m m' = (n : String) (d : ℕ) → lookup n m ≡ some d → lookup n m' ≡ some d

-- The names being visited are not entered meanwhile.
abbrev Keeps : List String → Memo → Memo → Type 0
Keeps visiting m m' = (v : String) → In v visiting → lookup v m' ≡ lookup v m

Extends-eq : {m m' : Memo} → m ≡ m' → Extends m m'
Extends-eq e n c p = subst (λ (q : Memo). lookup n q ≡ some c) e p

module _ (by_name : Dict String FeatureDef) (cap : ℕ) where
  -- The dependencies are in the memo, at depths that `R` relates to `d`.
  abbrev pub Deps : (ℕ → ℕ → Type 0) → Memo → ℕ → List FeatureDependency → Type 0
  Deps R m d deps = All (λ e. (k : ℕ) × (lookup e.feature m ≡ some k) × R k d) deps

  -- Every depth in the memo is at most the cap, and above those of the dependencies.
  pub record IsRanked (m : Memo) : Type 0 where
    pub at_name :
        (n : String) (d : ℕ)
        → lookup n m ≡ some d
        → (f : FeatureDef) × (lookup n by_name ≡ some f) × (d ≤ cap) × Deps ◌<◌ m d f.deps

  record Entered (visiting : List String) (n : String) (m : Memo) (d : ℕ) (m' : Memo) : Type 0 where
    ranked : IsRanked m'
    extends : Extends m m'
    keeps : Keeps visiting m m'
    stored : lookup n m' ≡ some d

  -- What is asked of the recursive call.
  abbrev Sound : List String → (String → Memo → Result ValidationError (ℕ × Memo)) → Type 0
  Sound visiting go =
      (n : String) (m : Memo) (d : ℕ) (m' : Memo)
      → IsRanked m
      → go n m ≡ ok (d, m')
      → Entered visiting n m d m'

  module _ (visiting : List String) (go : String → Memo → Result ValidationError (ℕ × Memo))
      (sound : Sound visiting go) where
    record Deepest (deps : List FeatureDependency) (m : Memo) (best d : ℕ) (m' : Memo)
        : Type 0 where
      ranked : IsRanked m'
      extends : Extends m m'
      keeps : Keeps visiting m m'
      above : best ≤ d
      found : Deps ◌≤◌ m' d deps

    deepest-Deepest :
        (deps : List FeatureDependency) (best : ℕ) (m : Memo) (d : ℕ) (m' : Memo)
        → IsRanked m
        → deepest go deps best m ≡ ok (d, m')
        → Deepest deps m best d m'
    unfolding deepest
    deepest-Deepest [] best m d m' r h =
        let e : m ≡ m' = cc in
        let same : best ≡ d = cc in
        record {
          ranked = subst IsRanked e r;
          extends = Extends-eq e;
          keeps = λ v i. ap (lookup v) (sym e);
          above = omega (arith, same);
          found = tt;
        }
    deepest-Deepest (e ∷ deps) best m d m' r h =
        let ((k, m₁), first, later) = >>=-eq-ok (go e.feature m) _ h in
        let s = sound e.feature m k m₁ r first in
        let t = deepest-Deepest deps (max best k) m₁ d m' s.ranked later in
        record {
          ranked = t.ranked;
          extends = λ n c p. t.extends n c (s.extends n c p);
          keeps = λ v i. t.keeps v i ∙ s.keeps v i;
          above = omega (arith, t.above);
          found = ((k, t.extends _ _ s.stored, omega (arith, t.above)), t.found);
        }

    record Over (deps : List FeatureDependency) (m : Memo) (d : ℕ) (m' : Memo) : Type 0 where
      ranked : IsRanked m'
      extends : Extends m m'
      keeps : Keeps visiting m m'
      found : Deps ◌<◌ m' d deps

    depth_over-Over :
        (deps : List FeatureDependency) (m : Memo) (d : ℕ) (m' : Memo)
        → IsRanked m
        → depth_over go deps m ≡ ok (d, m')
        → Over deps m d m'
    unfolding depth_over
    depth_over-Over [] m d m' r h =
        let e : m ≡ m' = cc in
        record {
          ranked = subst IsRanked e r;
          extends = Extends-eq e;
          keeps = λ v i. ap (lookup v) (sym e);
          found = tt;
        }
    depth_over-Over (e ∷ deps) m d m' r h =
        let ((b, m₁), first, last) = >>=-eq-ok (deepest go (e ∷ deps) 0 m) _ h in
        let t = deepest-Deepest (e ∷ deps) 0 m b m₁ r first in
        let same : m₁ ≡ m' = cc in
        let one_more : 1 + b ≡ d = cc in
        record {
          ranked = subst IsRanked same t.ranked;
          extends = λ n c p. subst (λ (q : Memo). lookup n q ≡ some c) same (t.extends n c p);
          keeps = λ v i. ap (lookup v) (sym same) ∙ t.keeps v i;
          found =
              subst (λ (q : Memo). Deps ◌<◌ q d (e ∷ deps)) same
                (All-map (e ∷ deps) (λ x (k, p, le). (k, p, omega (arith, one_more))) t.found);
        }

  -- A new depth is stored under a name that was not in the memo.
  module _ (n : String) (d : ℕ) (m : Memo) (absent : lookup n m ≡ none) where
    Extends-insert : Extends m (insert n d m)
    Extends-insert k c p = elim (str_eq-cases n k) [
      | inl (_, e) ↦ cc (ap (λ (k : String). lookup k m) e)
      | inr (_, ne) ↦ lookup-insert_ne n k d m ne ∙ p
    ]

    IsRanked-insert :
        (f : FeatureDef)
        → lookup n by_name ≡ some f
        → d ≤ cap
        → Deps ◌<◌ m d f.deps
        → IsRanked m
        → IsRanked (insert n d m)
    IsRanked-insert f known fits deps r = record {
      at_name = λ k c p. elim (str_eq-cases n k) [
        | inl (_, e) ↦
            let same : d ≡ c = some-injective _ _ (
              sym (lookup-insert_self n d m)
              ∙ subst (λ (k : String). lookup k (insert n d m) ≡ some c) (sym e) p) in
            (
              f,
              subst (λ (k : String). lookup k by_name ≡ some f) e known,
              omega (arith, same),
              All-map f.deps
                  (λ x (j, q, lt). (j, Extends-insert x.feature j q, omega (arith, same))) deps,
            )
        | inr (_, ne) ↦
            let (g, known', fits', deps') = r.at_name k c (sym (lookup-insert_ne n k d m ne) ∙ p) in
            (
              g,
              known',
              fits',
              All-map g.deps (λ x (j, q, lt). (j, Extends-insert x.feature j q, lt)) deps',
            )
      ];
    }

  module _ (visiting : List String) (n : String)
      (go : String → Memo → Result ValidationError (ℕ × Memo))
      (sound : Sound (visiting ++ n ∷ []) go) (away : ¬ In n visiting) where
    enter-Entered :
        (m : Memo) (d : ℕ) (m' : Memo)
        → IsRanked m
        → lookup n m ≡ none
        → enter go by_name cap n m ≡ ok (d, m')
        → Entered visiting n m d m'
    unfolding enter
    enter-Entered m d m' r absent h = elim (Option-cases (lookup n by_name)) [
      | inl missing ↦ cc (rw (missing, enter) at h)
      | inr (f, known) ↦
          let ((k, m₁), first, last) =
            >>=-eq-ok (depth_over go f.deps m) _ (rw (known, enter) at h) in
          let t = depth_over-Over (visiting ++ n ∷ []) go sound f.deps m k m₁ r first in
          let still : lookup n m₁ ≡ none =
            t.keeps n (In-append_right n visiting (n ∷ []) (inl refl)) ∙ absent in
          elim (Bool-cases (ltb cap k)) [
            | inl deep ↦ cc (rw deep at last)
            | inr fits ↦
                let done : ◌≡◌ {A = Result ValidationError (ℕ × Memo)} (ok (k, insert n k m₁))
                    (ok (d, m')) =
                  rw fits at last in
                let stored : insert n k m₁ ≡ m' = cc in
                let same : k ≡ d = cc in
                let entered : Entered visiting n m k (insert n k m₁) = record {
                  ranked = IsRanked-insert n k m₁ still f known (ground arith) t.found t.ranked;
                  extends = λ j c p. Extends-insert n k m₁ still j c (t.extends j c p);
                  keeps = λ v i.
                      lookup-insert_ne n v k m₁ (λ e. away (rw e i))
                      ∙ t.keeps v (In-append_left v visiting (n ∷ []) i);
                  stored = lookup-insert_self n k m₁;
                } in
                subst (λ (q : Memo). Entered visiting n m d q) stored
                  (subst (λ (j : ℕ). Entered visiting n m j (insert n k m₁)) same entered)
          ]
    ]

  depth_of-Sound :
      (fuel : ℕ) (visiting : List String) → Sound visiting (depth_of fuel by_name cap visiting)
  unfolding depth_of
  depth_of-Sound zero visiting n m d m' r h = cc
  depth_of-Sound (suc fuel) visiting n m d m' r h = elim (Option-cases (lookup n m)) [
    | inr (k, stored) ↦
        let done : ◌≡◌ {A = Result ValidationError (ℕ × Memo)} (ok (k, m)) (ok (d, m')) =
          rw (stored, depth_of) at h in
        let e : m ≡ m' = cc in
        let same : k ≡ d = cc in
        record {
          ranked = subst IsRanked e r;
          extends = Extends-eq e;
          keeps = λ v i. ap (lookup v) (sym e);
          stored = Extends-eq e n d (stored ∙ ap some same);
        }
    | inl absent ↦ elim (Bool-cases (contains visiting n)) [
      | inl cycle ↦ cc (rw (absent, depth_of, cycle) at h)
      | inr fresh ↦
          enter-Entered visiting n (depth_of fuel by_name cap (visiting ++ n ∷ []))
            (depth_of-Sound fuel (visiting ++ n ∷ [])) (not-In visiting n fresh) m d m' r absent
            (rw (absent, depth_of, fresh) at h)
    ]
  ]

  -- After the loop over the features every one of them is in the ranked memo.
  pub depth_all-IsRanked :
      (fuel : ℕ) (fs : List FeatureDef) (m m' : Memo)
      → IsRanked m
      → depth_all fuel by_name cap fs m ≡ ok m'
      → IsRanked m' × Extends m m' × All (λ f. (d : ℕ) × (lookup f.name m' ≡ some d)) fs
  unfolding depth_all
  depth_all-IsRanked fuel [] m m' r h =
      let e : m ≡ m' = cc in (subst IsRanked e r, Extends-eq e, tt)
  depth_all-IsRanked fuel (f ∷ fs) m m' r h =
      let ((d, m₁), first, later) = >>=-eq-ok (depth_of fuel by_name cap [] f.name m) _ h in
      let s = depth_of-Sound fuel [] f.name m d m₁ r first in
      let (r', x, rest) = depth_all-IsRanked fuel fs m₁ m' s.ranked later in
      (r', λ n c p. x n c (s.extends n c p), ((d, x f.name d s.stored), rest))
