-- ===== src/Compute/Bounds.antt =====
-- fs_core/compute/engine.py: how the times of a computation stand to those of its inputs.
use Prim.Native.Nat.{min, max}
use mathlib.Core.Path.{subst}
use mathlib.Core.Option.{some-injective}
use clearfeature.Prelude.{
  if◌then◌else◌, All-map, In→All, ℕ, ◌≤◌, String, ◌≡◌, refl, sym, ap, inl, inr, Bool, false, Option,
  some, err≢ok, ok-injective, Bool-cases, List, [], ◌∷◌, In, All, All→In, arith, Dict, string_key,
  lookup, Result, ok, >>=-eq-ok, Option-cases,
}
use clearfeature.Domain.{SourceStamp}
use clearfeature.Registry.{FeatureDef}
use clearfeature.Compute.Context.{
  ComputeError, FeatureComputation, outside, hash_failed, degraded, okay, is_skipped_status,
}
use clearfeature.Compute.Derive.{
  Input, stamp_input, dependency_input, source_inputs, dependency_inputs, min_ts, max_ts,
  latest_available, derived_source, derive,
}

-- An input of time `ts` that was available at `available`: it is not older than the data time of
-- the computation, not newer than its newest input, and was available when the computation is.
pub record Bounds {V : Type 0} (c : FeatureComputation V) (ts : ℕ) (available : Option ℕ)
    : Type 0 where
  pub oldest : c.data_ts ≤ ts
  pub newest : ts ≤ c.max_input_data_ts
  pub available_by : (a : ℕ) → c.available_at ≡ some a → (b : ℕ) × (available ≡ some b) × (b ≤ a)

min_ts-lower :
    (best : ℕ) (is : List Input)
    → (min_ts best is ≤ best) × All (λ i. min_ts best is ≤ i.input_ts) is
unfolding min_ts
min_ts-lower best [] = (omega arith, tt)
min_ts-lower best (i ∷ is) =
    let (h, rest) = min_ts-lower (min best i.input_ts) is in (omega arith, (omega arith, rest))

max_ts-upper :
    (best : ℕ) (is : List Input)
    → (best ≤ max_ts best is) × All (λ i. i.input_ts ≤ max_ts best is) is
unfolding max_ts
max_ts-upper best [] = (omega arith, tt)
max_ts-upper best (i ∷ is) =
    let (h, rest) = max_ts-upper (max best i.input_ts) is in (omega arith, (omega arith, rest))

abbrev AvailableBy : ℕ → Input → Type 0
AvailableBy a i = (b : ℕ) × (i.available_at ≡ some b) × (b ≤ a)

latest_available-upper :
    (is : List Input) (a : ℕ) → latest_available is ≡ some a → All (AvailableBy a) is
unfolding latest_available
latest_available-upper [] a h = tt
latest_available-upper (i ∷ []) a h = ((a, h, omega arith), tt)
latest_available-upper (i ∷ j ∷ is) a h = elim (Option-cases i.available_at) [
  | inl e ↦ cc (rw (e, latest_available) at h)
  | inr (b, e) ↦ elim (Option-cases (latest_available (j ∷ is))) [
    | inl e' ↦ cc (rw (e, latest_available, e') at h)
    | inr (b', e') ↦
        let m : max b b' ≡ a = some-injective _ _ (rw (e, latest_available, e') at h) in
        (
          (b, e, omega (arith, m)),
          All-map (j ∷ is) (λ x (t, p, le). (t, p, omega (arith, m)))
              (latest_available-upper (j ∷ is) b' e'),
        )
  ]
]

module _ {V : Type 0} (hash_value : V → Result String String)
    (fingerprint : List Input → String) where
  pub derive-Bounds :
      (value : V) (bad : Bool) (is : List Input) (c : FeatureComputation V)
      → derive hash_value fingerprint value bad is ≡ ok c
      → All (λ i. Bounds c i.input_ts i.available_at) is
  unfolding derive derived_source
  derive-Bounds value bad [] c h = tt
  derive-Bounds value bad (i ∷ is) c h =
      let (hash, first, last) = >>=-eq-ok (outside hash_failed (hash_value value)) _ h in
      let made : FeatureComputation V = record {
        value = value;
        data_ts = min_ts i.input_ts is;
        max_input_data_ts = max_ts i.input_ts is;
        value_hash = hash;
        input_fingerprint = fingerprint (i ∷ is);
        status = if bad then degraded else okay;
        available_at = latest_available (i ∷ is);
        availability_source = derived_source (i ∷ is);
      } in
      let done : ◌≡◌ {A = Result ComputeError (FeatureComputation V)} (ok made) (ok c) = last in
      let same : made ≡ c = cc in
      subst (λ (c : FeatureComputation V). All (λ i. Bounds c i.input_ts i.available_at) (i ∷ is))
        same
        (In→All _ (i ∷ is) (λ x j. record {
          oldest =
              All→In (λ y. min_ts i.input_ts is ≤ y.input_ts) (i ∷ is) (min_ts-lower i.input_ts is)
                x j;
          newest =
              All→In (λ y. y.input_ts ≤ max_ts i.input_ts is) (i ∷ is) (max_ts-upper i.input_ts is)
                x j;
          available_by =
              λ a p. All→In (AvailableBy a) (i ∷ is) (latest_available-upper (i ∷ is) a p) x j;
        }))

  -- The value is the one that was given, and the feature does not count as skipped.
  pub derive-value :
      (value : V) (bad : Bool) (is : List Input) (c : FeatureComputation V)
      → derive hash_value fingerprint value bad is ≡ ok c
      → (c.value ≡ value) × (is_skipped_status (some c.status) ≡ false)
  unfolding derive
  derive-value value bad [] c h = absurd (err≢ok h)
  derive-value value bad (i ∷ is) c h =
      let (hash, first, last) = >>=-eq-ok (outside hash_failed (hash_value value)) _ h in
      elim (Bool-cases bad) [
        | inl e ↦ rw (← ok-injective last, e) (refl, refl)
        | inr e ↦ rw (← ok-injective last, e) (refl, refl)
      ]

pub In-source_inputs :
    (stamps : Dict String SourceStamp) (names : List String) (is : List Input) (src : String)
    → source_inputs stamps names ≡ ok is
    → In src names
    → (stamp : SourceStamp) × (lookup src stamps ≡ some stamp)
      × ((i : Input) × In i is
          × (i.input_ts ≡ stamp.report_ts)
          × (i.available_at ≡ stamp.available_at))
unfolding source_inputs
In-source_inputs stamps [] is src h i = elim i [ ]
In-source_inputs stamps (n ∷ names) is src h i = elim (Option-cases (lookup n stamps)) [
  | inl missing ↦ cc (rw (missing, source_inputs) at h)
  | inr (stamp, held) ↦
      let (rest, first, last) =
        >>=-eq-ok (source_inputs stamps names) _ (rw (held, source_inputs) at h) in
      let made : stamp_input n stamp ∷ rest ≡ is = cc in
      elim i [
        | inl e ↦ (
          stamp,
          rw e held,
          (
            stamp_input n stamp,
            subst (λ (q : List Input). In (stamp_input n stamp) q) made (inl refl),
            refl,
            refl,
          ),
        )
        | inr j ↦
            let (found, held', (input, k, ts, at)) =
              In-source_inputs stamps names rest src first j in
            (found, held', (input, subst (λ (q : List Input). In input q) made (inr k), ts, at))
      ]
]

module _ {V : Type 0} where
  pub In-dependency_inputs :
      (by_name : Dict String FeatureDef) (acc : Dict String (FeatureComputation V))
      (is : List Input) (dep : String) (c : FeatureComputation V)
      → dependency_inputs by_name acc ≡ ok is
      → In (dep, c) acc
      → (i : Input) × In i is × (i.input_ts ≡ c.data_ts) × (i.available_at ≡ c.available_at)
  unfolding dependency_inputs
  In-dependency_inputs by_name [] is dep c h i = elim i [ ]
  In-dependency_inputs by_name ((n, k) ∷ acc) is dep c h i =
      elim (Option-cases (lookup n by_name)) [
        | inl missing ↦ cc (rw (missing, dependency_inputs) at h)
        | inr (f, held) ↦
            let (rest, first, last) =
              >>=-eq-ok (dependency_inputs by_name acc) _ (rw (held, dependency_inputs) at h) in
            let made : dependency_input f k ∷ rest ≡ is = cc in
            elim i [
              | inl e ↦
                  let same : c ≡ k = ap (λ (p : String × FeatureComputation V). p.1) e in
                  (
                    dependency_input f k,
                    subst (λ (q : List Input). In (dependency_input f k) q) made (inl refl),
                    ap (λ (c : FeatureComputation V). c.data_ts) (sym same),
                    ap (λ (c : FeatureComputation V). c.available_at) (sym same),
                  )
              | inr j ↦
                  let (input, l, ts, at) = In-dependency_inputs by_name acc rest dep c first j in
                  (input, subst (λ (q : List Input). In input q) made (inr l), ts, at)
            ]
      ]
