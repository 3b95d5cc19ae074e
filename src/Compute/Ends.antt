-- ===== src/Compute/Ends.antt =====
-- fs_core/compute/engine.py: the fuel of `_resolve` is enough, whatever the view.
use clearfeature.Prelude.{
  ℕ, zero, suc, ◌+◌, ◌<◌, String, ◌≡◌, refl, inl, inr, Option, none, some, List, [], ◌∷◌, ◌++◌, In,
  In-append, IsUnique, IsUnique-snoc, length-le_of_IsUnique, length, length-append, arith, contains,
  not-In, ◌==◌, str_eq, Dict, string_key, lookup, insert, err, Avoids-ok, Avoids->>=, Bool-cases,
  Option-cases,
}
use clearfeature.Domain.{EntityKey, FeatureResult}
use clearfeature.Registry.{FeatureDef, FeatureViewDef, Registry}
use clearfeature.Registry.Validator.{features_by_name}
use clearfeature.Registry.Names.{names, length-names, lookup-features_by_name_inv, In-names}
use clearfeature.Compute.Context.{
  unknown_feature, out_of_fuel, FeatureComputation, Context, get_feature, is_skipped,
}
use clearfeature.Compute.Fuel.{Ends, compute_feature-Ends}
use clearfeature.Compute.Results.{in_view}
use clearfeature.Compute.Resolve.{Env, resolve, to_result, compute_all, find_view_in, compute}

module _ {V P : Type 0} where
  resolve-Ends :
      (fs : List FeatureDef) (fuel : ℕ) (env : Env V P) (visiting : List String) (n : String)
      (c : Context V P)
      → env.by_name ≡ features_by_name fs
      → IsUnique visiting
      → ((v : String) → In v visiting → In v (names fs))
      → length fs < length visiting + fuel
      → Ends (resolve fuel env visiting n c)
  unfolding resolve get_feature
  resolve-Ends fs zero env visiting n c same u sub h =
      absurd (omega (arith, length-le_of_IsUnique visiting (names fs) u sub, length-names fs))
  resolve-Ends fs (suc fuel) env visiting n c same u sub h =
      elim (Option-cases (lookup n c.features)) [
        | inr (k, held) ↦ rw (held, resolve) (Avoids-ok out_of_fuel _)
        | inl absent ↦ elim (Bool-cases (is_skipped n c)) [
          | inl skipped ↦ rw (absent, resolve, skipped) (Avoids-ok out_of_fuel _)
          | inr unskipped ↦ elim (Option-cases (lookup n env.by_name)) [
            | inl unknown ↦ rw (absent, resolve, unskipped, unknown) (record { avoids = λ e. cc })
            | inr (f, known) ↦ elim (Bool-cases (contains visiting n)) [
              | inl cycle ↦
                  rw (absent, resolve, unskipped, known, cycle) (record { avoids = λ e. cc })
              | inr fresh ↦
                  let (i, e) = lookup-features_by_name_inv fs n f (rw same at known) in
                  rw (absent, resolve, unskipped, known, fresh)
                    (compute_feature-Ends env (resolve fuel env (visiting ++ n ∷ [])) n f c (λ k c'.
                      resolve-Ends fs fuel env (visiting ++ n ∷ []) k c' same
                        (IsUnique-snoc visiting n u (not-In visiting n fresh))
                        (λ v j. elim (In-append v visiting (n ∷ []) j) [
                          | inl old ↦ sub v old
                          | inr (inl p) ↦ rw (p, ← e) (In-names f fs i)
                          | inr (inr no_more) ↦ elim no_more [ ]
                        ])
                        (omega (arith, length-append visiting (n ∷ [])))))
            ]
          ]
        ]
      ]

  -- One round of the loop over the requested names.
  round-Ends :
      (fuel : ℕ) (env : Env V P) (entity : EntityKey) (n : String) (rest : List String)
      (results : Dict String (FeatureResult V)) (c : Context V P)
      (found : Option (FeatureComputation V)) (o : Option FeatureDef)
      → ((next : Dict String (FeatureResult V)) → Ends (compute_all fuel env entity rest next c))
      → Ends {A = Dict String (FeatureResult V) × Context V P} (elim found [
        | none ↦ compute_all fuel env entity rest results c
        | some k ↦ elim o [
          | none ↦ err (unknown_feature n)
          | some f ↦
              compute_all fuel env entity rest
                (insert n (to_result entity env.calc_ts f k) results)
                c
        ]
      ])
  round-Ends fuel env entity n rest results c none o ends = ends results
  round-Ends fuel env entity n rest results c (some k) none ends = record { avoids = λ e. cc }
  round-Ends fuel env entity n rest results c (some k) (some f) ends = ends _

  compute_all-Ends :
      (fs : List FeatureDef) (fuel : ℕ) (env : Env V P) (entity : EntityKey) (ns : List String)
      (results : Dict String (FeatureResult V)) (c : Context V P)
      → env.by_name ≡ features_by_name fs
      → length fs < fuel
      → Ends (compute_all fuel env entity ns results c)
  unfolding compute_all
  compute_all-Ends fs fuel env entity [] results c same h = Avoids-ok out_of_fuel _
  compute_all-Ends fs fuel env entity (n ∷ ns) results c same h =
      Avoids->>= out_of_fuel (resolve fuel env [] n c) _
        (resolve-Ends fs fuel env [] n c same tt (λ v i. elim i [ ]) (omega arith))
        (λ (found, c').
          round-Ends fuel env entity n ns results c' found (lookup n env.by_name)
            (λ next. compute_all-Ends fs fuel env entity ns next c' same h))

find_view_in-Ends :
    (view : String) (version : ℕ) (vs : List FeatureViewDef) → Ends (find_view_in view version vs)
unfolding find_view_in
find_view_in-Ends view version [] = record { avoids = λ e. cc }
find_view_in-Ends view version (v ∷ vs) = elim (Bool-cases (str_eq v.name view)) [
  | inr other ↦ rw (other, find_view_in) (find_view_in-Ends view version vs)
  | inl named ↦ elim (Bool-cases (v.view_version == version)) [
    | inl current ↦ rw (named, find_view_in, current) (Avoids-ok out_of_fuel v)
    | inr old ↦ rw (named, find_view_in, old) (record { avoids = λ e. cc })
  ]
]

-- Every request ends with results or with an error that the program raises, also on a registry
-- that was never validated: the fuel is enough.
pub compute-Ends :
    {V P : Type 0} (r : Registry) (env : Env V P) (view : String) (view_version : ℕ)
    (entity : EntityKey) (requested : List String) (c : Context V P)
    → Ends (compute r env view view_version entity requested c)
unfolding compute
compute-Ends r env view view_version entity requested c =
    Avoids->>= out_of_fuel (find_view_in view view_version r.feature_views) _
      (find_view_in-Ends view view_version r.feature_views)
      (λ v.
        compute_all-Ends v.features (suc (length v.features)) (in_view env v) entity requested [] c
          refl (omega arith))
