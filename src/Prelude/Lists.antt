-- ===== src/Prelude/Lists.antt =====
-- Lists measured by native numbers, membership and predicates by recursion.
use Prim.Native.Nat.{ℕ, suc, ◌+◌}
use mathlib.Core.Path.{◌≡◌, refl}
use mathlib.Core.Logic.{◌⊎◌, inl, inr, ◌↔◌}
use mathlib.Core.Bool.{Bool, true, false, ◌&&◌, ◌||◌}
use mathlib.Core.List.{List, [], ◌∷◌, ◌++◌}
use native.Mathlib.Omega.{arith}

module _ {ℓ} {A : Type ℓ} where
  abbrev pub length : List A → ℕ
  length [] = 0
  length (x ∷ xs) = suc (length xs)

  -- Python's `any(p(x) for x in xs)` and `all(...)`.
  abbrev pub any : (A → Bool) → List A → Bool
  any p [] = false
  any p (x ∷ xs) = p x || any p xs

  abbrev pub all : (A → Bool) → List A → Bool
  all p [] = true
  all p (x ∷ xs) = p x && all p xs

  abbrev pub All {κ} : (A → Type κ) → List A → Type κ
  All P [] = Unit
  All P (x ∷ xs) = P x × All P xs

-- `x` stands in the list. (At level 0, where `⊥` is.)
abbrev pub In : {A : Type 0} → A → List A → Type 0
In x [] = ⊥
In x (y ∷ ys) = (x ≡ y) ⊎ In x ys

module _ {A : Type 0} where
  pub length-append : (xs ys : List A) → length (xs ++ ys) ≡ length xs + length ys
  length-append [] ys = omega arith
  length-append (x ∷ xs) ys = omega (arith, length-append xs ys)

  pub In-append_left : (x : A) (xs ys : List A) → In x xs → In x (xs ++ ys)
  In-append_left x [] ys h = elim h [ ]
  In-append_left x (y ∷ xs) ys (inl e) = inl e
  In-append_left x (y ∷ xs) ys (inr h) = inr (In-append_left x xs ys h)

  pub In-append_right : (x : A) (xs ys : List A) → In x ys → In x (xs ++ ys)
  In-append_right x [] ys h = h
  In-append_right x (y ∷ xs) ys h = inr (In-append_right x xs ys h)

  pub In-append : (x : A) (xs ys : List A) → In x (xs ++ ys) → In x xs ⊎ In x ys
  In-append x [] ys h = inr h
  In-append x (y ∷ xs) ys (inl e) = inl (inl e)
  In-append x (y ∷ xs) ys (inr h) = elim (In-append x xs ys h) [
    | inl k ↦ inl (inr k)
    | inr k ↦ inr k
  ]

  pub All→In {κ} : (P : A → Type κ) (xs : List A) → All P xs → (x : A) → In x xs → P x
  All→In P [] h x i = elim i [ ]
  All→In P (y ∷ ys) h x (inl e) = rw e h.0
  All→In P (y ∷ ys) h x (inr i) = All→In P ys h.1 x i

  pub In→All {κ} : (P : A → Type κ) (xs : List A) → ((x : A) → In x xs → P x) → All P xs
  In→All P [] h = tt
  In→All P (y ∷ ys) h = (h y (inl refl), In→All P ys (λ x i. h x (inr i)))

pub All-map {ℓ κ μ} :
    {A : Type ℓ} {P : A → Type κ} {Q : A → Type μ} (xs : List A)
    → ((x : A) → P x → Q x)
    → All P xs
    → All Q xs
All-map [] f h = tt
All-map (x ∷ xs) f h = (f x h.0, All-map xs f h.1)

-- Two lists one after the other.
pub All-append {ℓ κ} :
    {A : Type ℓ} (P : A → Type κ) (front back : List A)
    → All P front
    → All P back
    → All P (front ++ back)
All-append P [] back none_there there = there
All-append P (a ∷ front) back (first, others) there = (first, All-append P front back others there)

module _ {A : Type 0} (p : A → Bool) where
  pub any-All : (xs : List A) → (any p xs ≡ false) ↔ All (λ x. p x ≡ false) xs
  any-All [] = (λ h. tt, λ h. refl)
  any-All (x ∷ xs) = ground (arith, any-All xs)

  pub all-All : (xs : List A) → (all p xs ≡ true) ↔ All (λ x. p x ≡ true) xs
  all-All [] = (λ h. tt, λ h. refl)
  all-All (x ∷ xs) = ground (arith, all-All xs)

  pub any-In : (xs : List A) (x : A) → In x xs → p x ≡ true → any p xs ≡ true
  any-In [] x i h = elim i [ ]
  any-In (y ∷ ys) x (inl e) h = rw (← e, h) refl
  any-In (y ∷ ys) x (inr i) h = ground (arith, any-In ys x i h)

  pub any-append_left : (xs ys : List A) → any p xs ≡ true → any p (xs ++ ys) ≡ true
  any-append_left [] ys h = cc
  any-append_left (x ∷ xs) ys h = ground (arith, any-append_left xs ys)
