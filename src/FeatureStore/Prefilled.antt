-- ===== src/FeatureStore/Prefilled.antt =====
-- The context that `compute_dependent_from_offline` of fs_core/feature_store.py fills.
use mathlib.Core.Path.{subst}
use mathlib.Core.Option.{some-injective}
use clearfeature.Prelude.{
  ℕ, ◌≤◌, String, ◌≡◌, refl, sym, ap, ◌∙◌, ◌⊎◌, inl, inr, false, Option, none, some, List, [], ◌∷◌,
  In, All, str_eq-cases, pos, Dict, lookup, insert, lookup-insert_self, lookup-insert_ne,
  string_key, Result, ok, err, >>=-eq-ok, err≢ok, ok-injective, none≢some,
}
use clearfeature.Offline.{OfflineRecord, OfflineStore}
use clearfeature.Domain.{FeatureResult}
use clearfeature.Pit.Select.{Eligible}
use clearfeature.Pit.Store.{IsAsked, get_pit_no_leakage}
use clearfeature.Registry.{FeatureDependency, FeatureDef}
use clearfeature.Compute.Context.{
  FeatureComputation, Context, okay, is_skipped, is_skipped_status, cache_feature, fresh_context,
}
use clearfeature.FeatureStore.Recompute.{
  DependentError, DependentCall, unknown_dependency, not_selected, or_fail, found_feature, or_skip,
  or_version, hash_or, computation_of, read_dependency, prefill,
}

pub found_feature-eq-ok :
    (problem : DependentError) (o : Option FeatureDef) (f : FeatureDef)
    → found_feature problem o ≡ ok f
    → o ≡ some f
found_feature-eq-ok problem none f h = absurd (err≢ok h)
found_feature-eq-ok problem (some g) f h = ap some (ok-injective h)

pub or_fail-eq-ok :
    {E A : Type 0} (raised : E → DependentError) (r : Result E A) (a : A)
    → or_fail raised r ≡ ok a
    → r ≡ ok a
or_fail-eq-ok raised (err problem) a h = absurd (err≢ok h)
or_fail-eq-ok raised (ok b) a h = ap ok (ok-injective h)

pub or_skip-eq-ok :
    {A B : Type 0} (o : Option A) (next : A → Result DependentError (Option B)) (b : B)
    → or_skip o next ≡ ok (some b)
    → (a : A) × (o ≡ some a) × (next a ≡ ok (some b))
or_skip-eq-ok none next b h = absurd (none≢some (ok-injective h))
or_skip-eq-ok (some a) next b h = (a, refl, h)

-- The value and the times of a row, which count as a computation that succeeded.
pub record IsOfRow {V : Type 0} (r : FeatureResult V) (k : FeatureComputation V) : Type 0 where
  pub value : k.value ≡ r.value
  pub data_ts : k.data_ts ≡ r.data_ts
  pub available_at : k.available_at ≡ r.available_at
  pub status : k.status ≡ okay

module _ {V : Type 0} (hash_value : V → Result String String) where
  pub computation_of-IsOfRow :
      (r : FeatureResult V) (k : FeatureComputation V)
      → computation_of hash_value r ≡ ok k
      → IsOfRow r k
  unfolding computation_of
  computation_of-IsOfRow r k h =
      let (_, _, later) = >>=-eq-ok (hash_or hash_value r.value_hash r.value) _ h in
      let (_, _, last) = >>=-eq-ok (hash_or hash_value r.input_fingerprint r.value) _ later in
      rw (← ok-injective last)
        (record { value = refl; data_ts = refl; available_at = refl; status = refl })

-- A computation stands for a row of the history that was known at the time of the recompute: the
-- row is for that entity, feature, version and view, was available by then and is older by the gap.
pub record IsKnownInput {V : Type 0} (c : DependentCall) (g : ℕ) (by_name : Dict String FeatureDef)
    (offline : OfflineStore V) (deps : List FeatureDependency) (n : String)
    (k : FeatureComputation V) : Type 0 where
  pub dep : FeatureDependency
  pub target : FeatureDef
  pub row : OfflineRecord V
  pub listed : In dep deps
  pub named : dep.feature ≡ n
  pub declared : lookup dep.feature by_name ≡ some target
  pub recorded : In row offline
  pub asked :
      IsAsked c.entity_key dep.feature
        (or_version dep.version target.feature_version)
        c.view
        c.view_version
        row
  pub eligible : Eligible c.calc_ts g row
  pub of_row : IsOfRow row.result k

module _ {V P : Type 0} where
  abbrev pub HasComputation : Context V P → String → Type 0
  HasComputation c n = (k : FeatureComputation V) × (lookup n c.features ≡ some k)

  lookup-cache_feature_cases :
      (n m : String) (k j : FeatureComputation V) (c : Context V P)
      → lookup m (cache_feature n k c).features ≡ some j
      → ((n ≡ m) × (k ≡ j)) ⊎ (lookup m c.features ≡ some j)
  unfolding cache_feature
  lookup-cache_feature_cases n m k j c h = elim (str_eq-cases n m) [
    | inl (_, e) ↦ inl (
      e,
      some-injective _ _ (
          sym (lookup-insert_self n k c.features)
          ∙ subst (λ (m : String). lookup m (insert n k c.features) ≡ some j) (sym e) h),
    )
    | inr (_, ne) ↦ inr (sym (lookup-insert_ne n m k c.features ne) ∙ h)
  ]

  HasComputation-cache_feature :
      (n m : String) (k : FeatureComputation V) (c : Context V P)
      → HasComputation c m
      → HasComputation (cache_feature n k c) m
  unfolding cache_feature
  HasComputation-cache_feature n m k c (j, h) = elim (str_eq-cases n m) [
    | inl (_, e) ↦ (k, rw (← e) (lookup-insert_self n k c.features))
    | inr (_, ne) ↦ (j, lookup-insert_ne n m k c.features ne ∙ h)
  ]

  is_skipped-cache_feature :
      (n m : String) (k : FeatureComputation V) (c : Context V P)
      → k.status ≡ okay
      → is_skipped m c ≡ false
      → is_skipped m (cache_feature n k c) ≡ false
  unfolding cache_feature is_skipped
  is_skipped-cache_feature n m k c status h = elim (str_eq-cases n m) [
    | inl (_, e) ↦ rw (← e, lookup-insert_self n k.status c.statuses, status) refl
    | inr (_, ne) ↦ ap is_skipped_status (lookup-insert_ne n m k.status c.statuses ne) ∙ h
  ]

  self-cache_feature :
      (n : String) (k : FeatureComputation V) (c : Context V P)
      → HasComputation (cache_feature n k c) n
  unfolding cache_feature
  self-cache_feature n k c = (k, lookup-insert_self n k c.features)

  module _ (c : DependentCall) (g : ℕ) (gap : c.safety_gap ≡ pos g) (in_range : g ≤ c.calc_ts)
      (hash_value : V → Result String String) (by_name : Dict String FeatureDef)
      (offline : OfflineStore V) (whole : List FeatureDependency) where
    -- Only computations of known rows, no skipped feature.
    pub record IsClean (x : Context V P) : Type 0 where
      pub known :
          (n : String) (k : FeatureComputation V)
          → lookup n x.features ≡ some k
          → IsKnownInput c g by_name offline whole n k
      pub unskipped : (n : String) → is_skipped n x ≡ false

    pub fresh-IsClean : IsClean fresh_context
    unfolding lookup is_skipped
    fresh-IsClean = record { known = λ n k p. absurd (none≢some p); unskipped = λ n. refl }

    pub record IsFilled (deps : List FeatureDependency) (x filled : Context V P) : Type 0 where
      pub clean : IsClean filled
      pub there : All (λ d. HasComputation filled d.feature) deps
      pub kept : (n : String) → HasComputation x n → HasComputation filled n

    -- The computation of one dependency that the loop caches.
    cached-IsClean :
        (d : FeatureDependency) (k : FeatureComputation V) (x : Context V P)
        → IsKnownInput c g by_name offline whole d.feature k
        → IsClean x
        → IsClean (cache_feature d.feature k x)
    cached-IsClean d k x input clean = record {
      known = λ n j h. elim (lookup-cache_feature_cases d.feature n k j x h) [
        | inl (e, same) ↦ rw (← e, ← same) input
        | inr old ↦ clean.known n j old
      ];
      unskipped =
          λ n. is_skipped-cache_feature d.feature n k x input.of_row.status (clean.unskipped n);
    }

    pub prefill-IsFilled :
        (deps : List FeatureDependency) (x filled : Context V P)
        → ((d : FeatureDependency) → In d deps → In d whole)
        → IsClean x
        → prefill hash_value c by_name offline deps x ≡ ok (some filled)
        → IsFilled deps x filled
    unfolding prefill
    prefill-IsFilled [] x filled within clean h =
        let same = some-injective _ _ (ok-injective h) in
        rw (← same) (record { clean = clean; there = tt; kept = λ n k. k })
    prefill-IsFilled (d ∷ deps) x filled within clean h =
        let (target, declared, after) =
          >>=-eq-ok (found_feature (unknown_dependency d.feature) (lookup d.feature by_name)) _ h in
        let (read, selected, later) = >>=-eq-ok (read_dependency c offline d target) _ after in
        let (row, there, rest) = or_skip-eq-ok read _ filled later in
        let (k, computed, last) = >>=-eq-ok (computation_of hash_value row.result) _ rest in
        let (recorded, asked, eligible) =
          get_pit_no_leakage c.entity_key d.feature (or_version d.version target.feature_version)
            c.view c.view_version c.calc_ts g in_range offline row
            (rw (gap, there) at (or_fail-eq-ok not_selected _ read selected)) in
        let input : IsKnownInput c g by_name offline whole d.feature k = record {
          dep = d;
          target = target;
          row = row;
          listed = within d (inl refl);
          named = refl;
          declared = found_feature-eq-ok _ _ target declared;
          recorded = recorded;
          asked = asked;
          eligible = eligible;
          of_row = computation_of-IsOfRow hash_value row.result k computed;
        } in
        let f =
          prefill-IsFilled deps (cache_feature d.feature k x) filled (λ e i. within e (inr i))
            (cached-IsClean d k x input clean) last in
        record {
          clean = f.clean;
          there = (f.kept d.feature (self-cache_feature d.feature k x), f.there);
          kept = λ n p. f.kept n (HasComputation-cache_feature d.feature n k x p);
        }
