-- ===== src/Prelude/Text.antt =====
-- Texts as names: membership in a list of names, and the methods of Python's `str` that the
-- program calls to tell a blank name and to normalise a status.
use Prim.Native.Nat.{ℕ, suc, ◌+◌, ◌≤◌}
use Prim.Native.Char.{code}
use Prim.Native.String.{String}
use mathlib.Core.Path.{◌≡◌, refl, sym, ap, ◌∙◌}
use mathlib.Core.Logic.{◌≢◌, ◌⊎◌, inl, inr}
use mathlib.Core.Bool.{Bool, true, false, ◌||◌, ◌&&◌}
use mathlib.Core.List.{List, [], ◌∷◌, ◌++◌, map, reverse}
use native.Mathlib.Omega.{arith}
use text.Mathlib.Text.{◌==◌ as str_eq}
use text.Mathlib.TextEquality.{eq_iff}
use clearfeature.Prelude.Tests.{leb, ◌==◌, if◌then◌else◌}
use clearfeature.Prelude.Lists.{In, In-append, length}

-- The test on two names, with what it decides.
pub str_eq-cases : (a b : String) → (str_eq a b ≡ true) × (a ≡ b) ⊎ (str_eq a b ≡ false) × (a ≢ b)
str_eq-cases a b = ground (arith, eq_iff a b)

pub str_eq_self : (a : String) → str_eq a a ≡ true
str_eq_self a = (eq_iff a a).1 refl

-- `name in names`
unfoldable pub contains : List String → String → Bool
contains [] a = false
contains (x ∷ xs) a = str_eq a x || contains xs a

pub contains→In : (xs : List String) (a : String) → contains xs a ≡ true → In a xs
unfolding contains
contains→In [] a h = cc
contains→In (x ∷ xs) a h = elim (str_eq-cases a x) [
  | inl (_, e) ↦ inl e
  | inr (e, _) ↦ inr (contains→In xs a (rw (← h, e)))
]

pub In→contains : (xs : List String) (a : String) → In a xs → contains xs a ≡ true
unfolding contains
In→contains [] a h = elim h [ ]
In→contains (x ∷ xs) a (inl e) = ground (arith, eq_iff a x)
In→contains (x ∷ xs) a (inr h) = ground (arith, In→contains xs a h)

pub not-In : (xs : List String) (a : String) → contains xs a ≡ false → ¬ In a xs
not-In xs a h i = cc (In→contains xs a i)

-- No name stands twice.
abbrev pub IsUnique : List String → Type 0
IsUnique [] = Unit
IsUnique (x ∷ xs) = ¬ In x xs × IsUnique xs

-- The code points of a text.
unfoldable pub codes : String → List ℕ
codes String.[] = []
codes (String.◌∷◌ c s) = code c ∷ codes s

-- `str.isspace` of one character, by its code point.
unfoldable pub is_space : ℕ → Bool
is_space c =
    (leb 9 c && leb c 13)
    || (leb 28 c && leb c 32)
    || (c == 0x85)
    || (c == 0xa0)
    || (c == 0x1680)
    || (leb 0x2000 c && leb c 0x200a)
    || (c == 0x2028)
    || (c == 0x2029)
    || (c == 0x202f)
    || (c == 0x205f)
    || (c == 0x3000)

all_space : List ℕ → Bool
all_space [] = true
all_space (c ∷ cs) = is_space c && all_space cs

-- `not s or not s.strip()`
unfoldable pub is_blank : String → Bool
unfolding codes is_space all_space
is_blank s = all_space (codes s)

lstrip : List ℕ → List ℕ
lstrip [] = []
lstrip (c ∷ cs) = elim (is_space c) [ true ↦ lstrip cs | false ↦ c ∷ cs ]

-- `s.strip()`
unfoldable pub strip : List ℕ → List ℕ
unfolding lstrip is_space
strip cs = lstrip (reverse (lstrip (reverse cs)))

-- `s.lower()` where it decides a comparison with an ASCII text: of the other characters only the
-- Kelvin sign has an ASCII letter as its whole lower case.
unfoldable pub lower : List ℕ → List ℕ
lower = map (λ c. if leb b'A' c && leb c b'Z' then c + 32 else if c == 0x212a then b'k' else c)

unfoldable pub codes_eq : List ℕ → List ℕ → Bool
codes_eq [] [] = true
codes_eq (a ∷ as') (b ∷ bs) = (a == b) && codes_eq as' bs
codes_eq _ _ = false

blank_space : is_blank " \t" ≡ true
unfolding is_blank
blank_space = refl

-- A list of names without its first `x`.
without : String → List String → List String
without x [] = []
without x (y ∷ ys) = if str_eq x y then ys else y ∷ without x ys

length-without : (x : String) (ys : List String) → In x ys → length ys ≡ suc (length (without x ys))
unfolding without
length-without x [] i = elim i [ ]
length-without x (y ∷ ys) i = elim (str_eq-cases x y) [
  | inl (t, _) ↦ rw t
  | inr (f, ne) ↦ rw f (elim i [ inl e ↦ absurd (ne e) | inr j ↦ ap suc (length-without x ys j) ])
]

In-without : (x z : String) (ys : List String) → z ≢ x → In z ys → In z (without x ys)
unfolding without
In-without x z [] ne i = i
In-without x z (y ∷ ys) ne i = elim (str_eq-cases x y) [
  | inl (t, e) ↦ rw t (elim i [ inl e' ↦ absurd (ne (e' ∙ sym e)) | inr j ↦ j ])
  | inr (f, _) ↦ rw f (elim i [ inl e' ↦ inl e' | inr j ↦ inr (In-without x z ys ne j) ])
]

-- Pairwise different names, all from a list, are no more than the list has.
pub length-le_of_IsUnique :
    (xs ys : List String) → IsUnique xs → ((x : String) → In x xs → In x ys) → length xs ≤ length ys
length-le_of_IsUnique [] ys u sub = omega arith
length-le_of_IsUnique (x ∷ xs) ys u sub =
    let fewer =
      length-le_of_IsUnique xs (without x ys) u.1
        (λ z i. In-without x z ys (λ e. u.0 (rw e at i)) (sub z (inr i))) in
    omega (arith, fewer, length-without x ys (sub x (inl refl)))

pub IsUnique-snoc :
    (xs : List String) (x : String) → IsUnique xs → ¬ In x xs → IsUnique (xs ++ x ∷ [])
IsUnique-snoc [] x u away = (λ i. elim i [ ], tt)
IsUnique-snoc (y ∷ xs) x u away = (
  λ i. elim (In-append y xs (x ∷ []) i) [
    | inl j ↦ u.0 j
    | inr (inl e) ↦ away (inl (sym e))
    | inr (inr j) ↦ elim j [ ]
  ],
  IsUnique-snoc xs x u.1 (λ i. away (inr i)),
)
