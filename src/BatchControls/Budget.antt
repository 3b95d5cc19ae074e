-- ===== src/BatchControls/Budget.antt =====
-- What the token bucket of api/batch_controls.py grants in the long run.
use Prim.Native.Nat.{◌/◌, min}
use clearfeature.Prelude.{
  ℕ, ◌+◌, ◌-◌, ◌*◌, ◌≤◌, ◌≡◌, refl, sym, ap, ◌∙◌, List, [], ◌∷◌, arith, ◌==◌, Bool-cases, inl, inr,
  ℤ, pos, negsuc,
}
use native.Mathlib.Nat.{add-mul}
use clearfeature.BatchControls.{TokenBucket, one_token, refill, take, try_acquire}

-- A call: how many tokens are asked for, and the clock.
pub record Ask : Type 0 where
  pub wanted : ℤ
  pub now : ℕ

-- The sum of what a run of calls is granted, and the bucket after it.
unfoldable pub granted_in_all : List Ask → TokenBucket → ℕ × TokenBucket
granted_in_all [] b = (0, b)
granted_in_all (a ∷ asks) b =
    let (granted, b') = try_acquire a.wanted a.now b in
    let (more, b'') = granted_in_all asks b' in (granted + more, b'')

-- The readings of the clock do not go back, from `start` to `end`.
abbrev pub IsForward : ℕ → List Ask → ℕ → Type 0
IsForward start [] end = start ≤ end
IsForward start (a ∷ asks) end = (start ≤ a.now) × IsForward a.now asks end

-- The bucket never holds more than its burst.
abbrev pub IsBounded : TokenBucket → Type 0
IsBounded b = b.tokens ≤ b.burst

-- One call, whatever it asks for.
pub record IsFair (a : Ask) (b : TokenBucket) (granted : ℕ) (b' : TokenBucket) : Type 0 where
  pub same_rate : b'.rate ≡ b.rate
  pub same_burst : b'.burst ≡ b.burst
  pub bounded : IsBounded b'
  pub paid : granted * one_token + b'.tokens ≤ b.tokens + (b'.last - b.last) * b.rate
  pub later : b'.last ≤ a.now
  pub kept : b.last ≤ b'.last

paid_of :
    (held most n : ℕ)
    → held ≤ most
    → min n (held / one_token) * one_token + (held - min n (held / one_token) * one_token) ≤ most
paid_of held most n h = omega arith

IsFair-nothing : (a : Ask) (b : TokenBucket) → IsBounded b → b.last ≤ a.now → IsFair a b 0 b
IsFair-nothing a b full later = record {
  same_rate = refl;
  same_burst = refl;
  bounded = full;
  paid = omega arith;
  later = later;
  kept = omega arith;
}

take-IsFair :
    (n : ℕ) (a : Ask) (b : TokenBucket)
    → IsBounded b
    → b.last ≤ a.now
    → IsFair a b (take n (refill a.now b)).0 (take n (refill a.now b)).1
unfolding refill
take-IsFair n a b full later =
    let earned = (a.now - b.last) * b.rate in
    record {
      same_rate = refl;
      same_burst = refl;
      bounded = omega arith;
      paid = paid_of (min b.burst (b.tokens + earned)) (b.tokens + earned) n (omega arith);
      later = omega arith;
      kept = later;
    }

try_acquire-IsFair :
    (wanted : ℤ) (now : ℕ) (b : TokenBucket)
    → IsBounded b
    → b.last ≤ now
    → IsFair
        (record { wanted = wanted; now = now })
        b
        (try_acquire wanted now b).0
        (try_acquire wanted now b).1
unfolding try_acquire
try_acquire-IsFair (negsuc n) now b full later = IsFair-nothing _ b full later
try_acquire-IsFair (pos n) now b full later = elim (Bool-cases (n == 0)) [
  | inl none_asked ↦ rw none_asked (IsFair-nothing _ b full later)
  | inr some_asked ↦ rw some_asked (take-IsFair n _ b full later)
]

IsForward-le : (start end : ℕ) (asks : List Ask) → IsForward start asks end → start ≤ end
IsForward-le start end [] forward = forward
IsForward-le start end (a ∷ asks) (later, forward) =
    omega (arith, IsForward-le a.now end asks forward)

IsForward-earlier :
    (start first end : ℕ) (asks : List Ask)
    → first ≤ start
    → IsForward start asks end
    → IsForward first asks end
IsForward-earlier start first end [] before forward = omega arith
IsForward-earlier start first end (a ∷ asks) before (later, forward) = (omega arith, forward)

sum_of :
    (now more left last tokens early late whole : ℕ)
    → now * one_token + left ≤ tokens + early
    → more * one_token + last ≤ left + late
    → whole ≡ early + late
    → (now + more) * one_token + last ≤ tokens + whole
sum_of now more left last tokens early late whole paid rest split = omega arith

-- What is earned in two stretches is earned in the whole.
earned_split : (a b c rate : ℕ) → a ≤ b → b ≤ c → (c - a) * rate ≡ (b - a) * rate + (c - b) * rate
earned_split a b c rate ab bc =
    let whole : c - a ≡ (b - a) + (c - b) = omega arith in
    ap (λ (t : ℕ). t * rate) whole ∙ add-mul (b - a) (c - b) rate

-- Over any run of calls whose clock readings do not go back, what the bucket grants in all,
-- together with the tokens that are left, is at most the tokens that it began with and the rate
-- for as long as the run lasts; and a bucket that began with no more than its burst never holds
-- more.
pub granted-le :
    (asks : List Ask) (b : TokenBucket) (end : ℕ)
    → IsBounded b
    → IsForward b.last asks end
    → ((granted_in_all asks b).0 * one_token + (granted_in_all asks b).1.tokens
        ≤ b.tokens + (end - b.last) * b.rate)
      × IsBounded (granted_in_all asks b).1
unfolding granted_in_all
granted-le [] b end full forward = (omega arith, full)
granted-le (a ∷ asks) b end full (later, forward) =
    let fair = try_acquire-IsFair a.wanted a.now b full later in
    let b' = (try_acquire a.wanted a.now b).1 in
    let (rest, bounded) =
      granted-le asks b' end fair.bounded
        (IsForward-earlier a.now b'.last end asks fair.later forward) in
    let ends : b'.last ≤ end = omega (arith, fair.later, IsForward-le a.now end asks forward) in
    let split =
      earned_split b.last b'.last end b.rate fair.kept ends
      ∙ ap (λ (r : ℕ). (b'.last - b.last) * b.rate + (end - b'.last) * r) (sym fair.same_rate) in
    (
      sum_of (try_acquire a.wanted a.now b).0 (granted_in_all asks b').0 b'.tokens
          (granted_in_all asks b').1.tokens b.tokens _ _ _ fair.paid rest split,
      bounded,
    )
