-- ===== src/Prelude/Dictionary.antt =====
-- Python's `dict`: an association list in insertion order. A write at a key that is there keeps
-- the key's place. Keys are compared by an instance of `Key`.
use mathlib.Core.Path.{◌≡◌, refl, sym, ap, ◌∙◌}
use mathlib.Core.Logic.{◌≢◌, ◌↔◌, ◌⊎◌, inl, inr}
use mathlib.Core.Bool.{Bool, true}
use mathlib.Core.Option.{Option, none, some}
use mathlib.Core.List.{List, [], ◌∷◌}
use native.Mathlib.Omega.{arith}
use Prim.Native.String.{String}
use text.Mathlib.Text.{◌==◌ as str_eq}
use text.Mathlib.TextEquality.{eq_iff}
use clearfeature.Prelude.Tests.{if◌then◌else◌, Bool-cases}
use clearfeature.Prelude.Lists.{All, In}

pub record Key {ℓ} (K : Type ℓ) : Type ℓ where
  pub eq : K → K → Bool
  pub decides : (a b : K) → (eq a b ≡ true) ↔ (a ≡ b)

instance abbrev pub string_key : Key String
string_key = record { eq = str_eq; decides = eq_iff }

abbrev pub Dict {ℓ κ} : Type ℓ → Type κ → Type (ℓ ⊔ κ)
Dict K V = List (K × V)

module _ {ℓ κ} {K : Type ℓ} ⦃k : Key K⦄ {V : Type κ} where
  -- d.get(key)
  unfoldable pub lookup : K → Dict K V → Option V
  lookup a [] = none
  lookup a ((b, v) ∷ d) = if k.eq b a then some v else lookup a d

  -- d[key] = value
  unfoldable pub insert : K → V → Dict K V → Dict K V
  insert a v [] = (a, v) ∷ []
  insert a v ((b, w) ∷ d) = if k.eq b a then (b, v) ∷ d else (b, w) ∷ insert a v d

  pub lookup-insert :
      (a b : K) (v : V) (d : Dict K V)
      → lookup b (insert a v d) ≡ (if k.eq a b then some v else lookup b d)
  unfolding lookup insert
  lookup-insert a b v [] = refl
  lookup-insert a b v ((c, w) ∷ d) =
      ground (arith, k.decides a b, k.decides c a, k.decides c b, lookup-insert a b v d)

  pub lookup-insert_self : (a : K) (v : V) (d : Dict K V) → lookup a (insert a v d) ≡ some v
  lookup-insert_self a v d = rw (lookup-insert a a v d, (k.decides a a).1 refl)

  pub lookup-insert_ne :
      (a b : K) (v : V) (d : Dict K V) → a ≢ b → lookup b (insert a v d) ≡ lookup b d
  lookup-insert_ne a b v d h = ground (arith, lookup-insert a b v d, k.decides a b)

  -- A second write at a key leaves the place of the first.
  pub insert-insert : (a : K) (v w : V) (d : Dict K V) → insert a v (insert a w d) ≡ insert a v d
  unfolding insert
  insert-insert a v w [] = ground (arith, k.decides a a)
  insert-insert a v w ((b, u) ∷ d) = ground (arith, k.decides b a, insert-insert a v w d)

  pub All-insert {μ} :
      (P : V → Type μ) (a : K) (v : V) (d : Dict K V)
      → P v
      → All (λ e. P e.1) d
      → All (λ e. P e.1) (insert a v d)
  unfolding insert
  All-insert P a v [] new old = (new, tt)
  All-insert P a v ((b, w) ∷ d) new old = ground (arith, All-insert P a v d new old.1)

-- At level 0, where `In` is.
module _ {K : Type 0} ⦃k : Key K⦄ {V : Type 0} where
  pub In-insert : (a : K) (v : V) (d : Dict K V) → In (a, v) (insert a v d)
  unfolding insert
  In-insert a v [] = inl refl
  In-insert a v ((b, w) ∷ d) = elim (Bool-cases (k.eq b a)) [
    | inl same ↦ rw (same, (k.decides b a).0 same) (inl refl)
    | inr other ↦ rw other (inr (In-insert a v d))
  ]

  -- What was there stays, but for the value at the written key.
  pub In-insert_ne :
      (a : K) (v : V) (d : Dict K V) (b : K) (w : V)
      → a ≢ b
      → In (b, w) d
      → In (b, w) (insert a v d)
  unfolding insert
  In-insert_ne a v [] b w ne i = elim i [ ]
  In-insert_ne a v ((c, u) ∷ d) b w ne i = elim (Bool-cases (k.eq c a)) [
    | inl same ↦ rw same (elim i [
      | inl e ↦ absurd (ne (sym ((k.decides c a).0 same) ∙ ap (λ (p : K × V). p.0) (sym e)))
      | inr j ↦ inr j
    ])
    | inr other ↦ rw other (elim i [ inl e ↦ inl e | inr j ↦ inr (In-insert_ne a v d b w ne j) ])
  ]

  pub In-insert_inv :
      (a : K) (v : V) (d : Dict K V) (b : K) (w : V)
      → In (b, w) (insert a v d)
      → ((b ≡ a) × (w ≡ v)) ⊎ In (b, w) d
  unfolding insert
  In-insert_inv a v [] b w (inl e) = inl (ap (λ (p : K × V). p.0) e, ap (λ (p : K × V). p.1) e)
  In-insert_inv a v [] b w (inr i) = elim i [ ]
  In-insert_inv a v ((c, u) ∷ d) b w i = elim (Bool-cases (k.eq c a)) [
    | inl same ↦ elim (rw same at i) [
      | inl e ↦ inl (ap (λ (p : K × V). p.0) e ∙ (k.decides c a).0 same, ap (λ (p : K × V). p.1) e)
      | inr j ↦ inr (inr j)
    ]
    | inr other ↦ elim (rw other at i) [
      | inl e ↦ inr (inl e)
      | inr j ↦ elim (In-insert_inv a v d b w j) [ inl h ↦ inl h | inr l ↦ inr (inr l) ]
    ]
  ]

  pub All-insert_key :
      (P : K → V → Type 0) (a : K) (v : V) (d : Dict K V)
      → P a v
      → All (λ e. P e.0 e.1) d
      → All (λ e. P e.0 e.1) (insert a v d)
  unfolding insert
  All-insert_key P a v [] new old = (new, tt)
  All-insert_key P a v ((b, w) ∷ d) new old = elim (Bool-cases (k.eq b a)) [
    | inl same ↦ rw same (rw ((k.decides b a).0 same) new, old.1)
    | inr other ↦ rw other (old.0, All-insert_key P a v d new old.1)
  ]
