-- ===== src/Registry/Graph/Fuel.antt =====
-- fs_core/registry/validator.py: the fuel of the search is enough.
use clearfeature.Prelude.{
  ℕ, zero, suc, ◌+◌, ◌<◌, String, ◌≡◌, inl, inr, some, List, [], ◌∷◌, ◌++◌, In, In-append, IsUnique,
  IsUnique-snoc, length-le_of_IsUnique, length, length-append, arith, ltb, contains, Dict,
  string_key, lookup, not-In, Result, Avoids, Avoids-ok, Avoids->>=, Bool-cases, Option-cases,
}
use clearfeature.Registry.{FeatureDependency, FeatureDef, FeatureViewDef}
use clearfeature.Registry.Validator.{
  ValidationError, out_of_fuel, Memo, deepest, depth_over, enter, depth_of, depth_all,
  features_by_name, validate_dependency_graph,
}
use clearfeature.Registry.Names.{names, length-names, lookup-features_by_name_inv, In-names}

-- The call ends with a value or with an error that the program raises.
abbrev pub Ends : {A : Type 0} → Result ValidationError A → Type 0
Ends r = Avoids out_of_fuel r

module _ (go : String → Memo → Result ValidationError (ℕ × Memo))
    (ends : (n : String) (m : Memo) → Ends (go n m)) where
  deepest-Ends : (ds : List FeatureDependency) (best : ℕ) (m : Memo) → Ends (deepest go ds best m)
  unfolding deepest
  deepest-Ends [] best m = Avoids-ok out_of_fuel _
  deepest-Ends (d ∷ ds) best m =
      Avoids->>= out_of_fuel (go d.feature m) _ (ends d.feature m) (λ (k, m'). deepest-Ends ds _ m')

  depth_over-Ends : (ds : List FeatureDependency) (m : Memo) → Ends (depth_over go ds m)
  unfolding depth_over
  depth_over-Ends [] m = Avoids-ok out_of_fuel _
  depth_over-Ends (d ∷ ds) m =
      Avoids->>= out_of_fuel (deepest go (d ∷ ds) 0 m) _ (deepest-Ends (d ∷ ds) 0 m)
        (λ (k, m'). Avoids-ok out_of_fuel _)

enter-Ends :
    (go : String → Memo → Result ValidationError (ℕ × Memo)) (by_name : Dict String FeatureDef)
    (cap : ℕ) (n : String) (m : Memo)
    → ((f : FeatureDef) → lookup n by_name ≡ some f → (k : String) (q : Memo) → Ends (go k q))
    → Ends (enter go by_name cap n m)
unfolding enter
enter-Ends go by_name cap n m ends = elim (Option-cases (lookup n by_name)) [
  | inl missing ↦ rw (missing, enter) (record { avoids = λ e. cc })
  | inr (f, known) ↦
      rw (known, enter)
        (Avoids->>= out_of_fuel (depth_over go f.deps m) _
          (depth_over-Ends go (ends f known) f.deps m)
          (λ (d, m'). elim (Bool-cases (ltb cap d)) [
            | inl deep ↦ rw deep (record { avoids = λ e. cc })
            | inr fits ↦ rw fits (Avoids-ok out_of_fuel _)
          ]))
]

module _ (fs : List FeatureDef) (cap : ℕ) where
  abbrev by_name : Dict String FeatureDef
  by_name = features_by_name fs

  depth_of-Ends :
      (fuel : ℕ) (visiting : List String) (n : String) (m : Memo)
      → IsUnique visiting
      → ((v : String) → In v visiting → In v (names fs))
      → length fs < length visiting + fuel
      → Ends (depth_of fuel by_name cap visiting n m)
  unfolding depth_of
  depth_of-Ends zero visiting n m u sub h =
      absurd (omega (arith, length-le_of_IsUnique visiting (names fs) u sub, length-names fs))
  depth_of-Ends (suc fuel) visiting n m u sub h = elim (Option-cases (lookup n m)) [
    | inr (k, stored) ↦ rw (stored, depth_of) (Avoids-ok out_of_fuel _)
    | inl absent ↦ elim (Bool-cases (contains visiting n)) [
      | inl cycle ↦ rw (absent, depth_of, cycle) (record { avoids = λ e. cc })
      | inr fresh ↦
          rw (absent, depth_of, fresh)
            (enter-Ends (depth_of fuel by_name cap (visiting ++ n ∷ [])) by_name cap n m
              (λ f known k q.
                let (i, e) = lookup-features_by_name_inv fs n f known in
                depth_of-Ends fuel (visiting ++ n ∷ []) k q
                  (IsUnique-snoc visiting n u (not-In visiting n fresh))
                  (λ v j. elim (In-append v visiting (n ∷ []) j) [
                    | inl old ↦ sub v old
                    | inr (inl new) ↦ rw (new, ← e) (In-names f fs i)
                    | inr (inr no_more) ↦ elim no_more [ ]
                  ])
                  (omega (arith, length-append visiting (n ∷ [])))))
    ]
  ]

  depth_all-Ends :
      (fuel : ℕ) (gs : List FeatureDef) (m : Memo)
      → length fs < fuel
      → Ends (depth_all fuel by_name cap gs m)
  unfolding depth_all
  depth_all-Ends fuel [] m h = Avoids-ok out_of_fuel _
  depth_all-Ends fuel (g ∷ gs) m h =
      Avoids->>= out_of_fuel (depth_of fuel by_name cap [] g.name m) _
        (depth_of-Ends fuel [] g.name m tt (λ v i. elim i [ ]) (omega arith))
        (λ (d, m'). depth_all-Ends fuel gs m' h)

-- The search for cycles and depths ends: the fuel that it is given is enough for every view.
pub validate_dependency_graph-Ends : (v : FeatureViewDef) → Ends (validate_dependency_graph v)
unfolding validate_dependency_graph
validate_dependency_graph-Ends v =
    depth_all-Ends v.features _ (suc (length v.features)) v.features [] (omega arith)
