-- ===== src/Offline.antt =====
-- fs_core/stores/offline.py: the append-only history. `get_pit` is in Pit.antt, with the rule that
-- it applies.
use mathlib.Core.List.{append-nil, append_assoc}
use clearfeature.Prelude.{
  ℕ, String, ◌≡◌, refl, Bool, true, ◌&&◌, Option, none, some, List, [], ◌∷◌, ◌++◌, arith, ◌==◌, sym,
  ◌∙◌, if◌then◌else◌, str_eq, inl, inr, In, All, Bool-cases,
}
use clearfeature.Domain.{EntityKey, encode, FeatureResult}

pub record OfflineRecord (V : Type 0) : Type 0 where
  pub view : String
  pub view_version : ℕ
  pub result : FeatureResult V

-- `_history`
abbrev pub OfflineStore : Type 0 → Type 0
OfflineStore V = List (OfflineRecord V)

-- The optional filters of `get`; `None` accepts everything.
pub record Filter : Type 0 where
  pub feature_name : Option String
  pub feature_version : Option ℕ
  pub view : Option String
  pub view_version : Option ℕ

abbrev pub accepts_text : Option String → String → Bool
accepts_text none s = true
accepts_text (some wanted) s = str_eq s wanted

abbrev pub accepts_number : Option ℕ → ℕ → Bool
accepts_number none n = true
accepts_number (some wanted) n = n == wanted

module _ {V : Type 0} where
  unfoldable pub append : String → ℕ → FeatureResult V → OfflineStore V → OfflineStore V
  append view view_version r s =
      s ++ record { view = view; view_version = view_version; result = r } ∷ []

  unfoldable pub append_many : String → ℕ → List (FeatureResult V) → OfflineStore V → OfflineStore V
  unfolding append
  append_many view view_version [] s = s
  append_many view view_version (r ∷ rs) s =
      append_many view view_version rs (append view view_version r s)

  -- The tests of the loop of `get`, in their order.
  unfoldable pub matches : EntityKey → Filter → OfflineRecord V → Bool
  matches entity f record_ =
      str_eq (encode record_.result.entity) (encode entity)
      && accepts_text f.feature_name record_.result.ref.name
      && accepts_number f.feature_version record_.result.ref.version
      && accepts_text f.view record_.view
      && accepts_number f.view_version record_.view_version

  unfoldable pub get : EntityKey → Filter → OfflineStore V → List (OfflineRecord V)
  unfolding matches
  get entity f [] = []
  get entity f (r ∷ rs) = if matches entity f r then r ∷ get entity f rs else get entity f rs

  pub In-get :
      (entity : EntityKey) (f : Filter) (s : OfflineStore V) (r : OfflineRecord V)
      → In r (get entity f s)
      → In r s × (matches entity f r ≡ true)
  unfolding get
  In-get entity f [] r i = elim i [ ]
  In-get entity f (x ∷ xs) r i =
      let later = In-get entity f xs r in
      elim (Bool-cases (matches entity f x)) [
        | inl kept ↦ elim (rw kept at i) [
          | inl e ↦ (inl e, rw e kept)
          | inr j ↦ (inr (later j).0, (later j).1)
        ]
        | inr dropped ↦ let j = rw dropped at i in (inr (later j).0, (later j).1)
      ]

  pub get-In :
      (entity : EntityKey) (f : Filter) (s : OfflineStore V) (r : OfflineRecord V)
      → In r s
      → matches entity f r ≡ true
      → In r (get entity f s)
  unfolding get
  get-In entity f [] r i h = elim i [ ]
  get-In entity f (x ∷ xs) r (inl e) h = rw (← e, h) (inl refl)
  get-In entity f (x ∷ xs) r (inr i) h = elim (Bool-cases (matches entity f x)) [
    | inl kept ↦ rw kept (inr (get-In entity f xs r i h))
    | inr dropped ↦ rw dropped (get-In entity f xs r i h)
  ]

  pub get-append :
      (entity : EntityKey) (f : Filter) (s s' : OfflineStore V)
      → get entity f (s ++ s') ≡ get entity f s ++ get entity f s'
  unfolding get
  get-append entity f [] s' = refl
  get-append entity f (x ∷ xs) s' = ground (arith, get-append entity f xs s')

  pub All-get :
      (P : OfflineRecord V → Type 0) (entity : EntityKey) (f : Filter) (s : OfflineStore V)
      → All P s
      → All P (get entity f s)
  unfolding get
  All-get P entity f [] h = tt
  All-get P entity f (x ∷ xs) h = ground (arith, All-get P entity f xs h.1)

-- The filter of every caller that asks for one feature of one view.
abbrev pub one_feature : String → ℕ → String → ℕ → Filter
one_feature name version view view_version = record {
  feature_name = some name;
  feature_version = some version;
  view = some view;
  view_version = some view_version;
}

-- What `append_many` appends.
abbrev pub rows : {V : Type 0} → String → ℕ → List (FeatureResult V) → List (OfflineRecord V)
rows view view_version [] = []
rows view view_version (r ∷ rs) =
    record { view = view; view_version = view_version; result = r } ∷ rows view view_version rs

pub append_many-rows :
    {V : Type 0} (view : String) (view_version : ℕ) (rs : List (FeatureResult V))
    (s : OfflineStore V)
    → append_many view view_version rs s ≡ s ++ rows view view_version rs
unfolding append_many append
append_many-rows view view_version [] s = sym (append-nil s)
append_many-rows view view_version (r ∷ rs) s =
    append_many-rows view view_version rs _ ∙ append_assoc s _ _

pub In-rows :
    {V : Type 0} (view : String) (view_version : ℕ) (rs : List (FeatureResult V))
    (r : FeatureResult V)
    → In r rs
    → In
        (record { view = view; view_version = view_version; result = r })
        (rows view view_version rs)
In-rows view view_version [] r i = elim i [ ]
In-rows view view_version (q ∷ rs) r (inl e) = inl (rw e refl)
In-rows view view_version (q ∷ rs) r (inr i) = inr (In-rows view view_version rs r i)
