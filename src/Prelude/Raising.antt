-- ===== src/Prelude/Raising.antt =====
-- A call that may raise: the exception's kind, or the value.
use mathlib.Core.Path.{◌≡◌, refl}
use mathlib.Core.Logic.{◌≢◌}
use mathlib.Core.Bool.{Bool, true, false}

pub data Result {ℓ κ} (E : Type κ) (A : Type ℓ) : Type (ℓ ⊔ κ) where
  err : E → Result E A
  ok : A → Result E A

module _ {μ} {E : Type μ} where
  -- `if bad: raise e`
  abbrev pub reject_if : Bool → E → Result E (Unit {0})
  reject_if false problem = ok tt
  reject_if true problem = err problem

  pub reject_if-eq-ok : (bad : Bool) (problem : E) → reject_if bad problem ≡ ok tt → bad ≡ false
  reject_if-eq-ok false problem passed = refl
  reject_if-eq-ok true problem passed = cc

  infixl 5 ◌>>◌ ◌>>=◌
  -- One check after another.
  abbrev pub ◌>>◌ {κ} : {B : Type κ} → Result E (Unit {0}) → Result E B → Result E B
  err problem >> later = err problem
  ok _ >> later = later

  pub >>-eq-ok {κ} :
      {B : Type κ} (check : Result E (Unit {0})) (later : Result E B) {b : B}
      → (check >> later) ≡ ok b
      → (check ≡ ok tt) × (later ≡ ok b)
  >>-eq-ok (err problem) later passed = cc
  >>-eq-ok (ok _) later passed = (refl, passed)

  abbrev pub ◌>>=◌ {ℓ κ} : {A : Type ℓ} {B : Type κ} → Result E A → (A → Result E B) → Result E B
  err problem >>= next = err problem
  ok a >>= next = next a

  pub >>=-eq-ok {ℓ κ} :
      {A : Type ℓ} {B : Type κ} (first : Result E A) (next : A → Result E B) {b : B}
      → (first >>= next) ≡ ok b
      → (a : A) × (first ≡ ok a) × (next a ≡ ok b)
  >>=-eq-ok (err problem) next passed = cc
  >>=-eq-ok (ok a) next passed = (a, refl, passed)

-- The call ends otherwise than by `bad`. A search on fuel that avoids its `out_of_fuel` ends with a
-- value or with an error that the program raises.
pub record Avoids {E A : Type 0} (bad : E) (r : Result E A) : Type 0 where
  pub avoids : r ≢ err bad

module _ {E A : Type 0} (bad : E) where
  pub Avoids-ok : (a : A) → Avoids bad (ok a)
  Avoids-ok a = record { avoids = λ e. cc }

  pub Avoids->>= :
      {B : Type 0} (first : Result E A) (next : A → Result E B)
      → Avoids bad first
      → ((a : A) → Avoids bad (next a))
      → Avoids bad (first >>= next)
  Avoids->>= (err problem) next fine later = record { avoids = λ p. fine.avoids (cc p) }
  Avoids->>= (ok a) next fine later = later a

pub ok-injective_pair :
    {E A B : Type 0} {a c : A} {b d : B}
    → ◌≡◌ {A = Result E (A × B)} (ok (a, b)) (ok (c, d))
    → (a ≡ c) × (b ≡ d)
ok-injective_pair h = (cc, cc)

pub err≢ok : {E A : Type 0} {problem : E} {a : A} → ◌≢◌ {A = Result E A} (err problem) (ok a)
err≢ok h = cc

pub ok-injective : {E A : Type 0} {a b : A} → ◌≡◌ {A = Result E A} (ok a) (ok b) → a ≡ b
ok-injective h = cc
