-- ===== src/Planner/Fuel.antt =====
-- fs_core/planner.py: the fuel of `_visit` is enough.
use clearfeature.Prelude.{
  ℕ, zero, suc, ◌+◌, ◌<◌, String, ◌≡◌, inl, inr, Bool, true, false, some, List, [], ◌∷◌, ◌++◌, In,
  In-append, IsUnique, IsUnique-snoc, length-le_of_IsUnique, length, length-append, arith, contains,
  not-In, ◌==◌, Dict, string_key, lookup, insert, Result, ok, err, Avoids, Avoids-ok, Avoids->>=,
  reject_if, ◌>>◌, Bool-cases, Option-cases,
}
use clearfeature.Registry.{
  Lifecycle, draft, shadow, live, deprecated, Kind, udf, model_score, model, FeatureDependency,
  FeatureDef, FeatureViewDef,
}
use clearfeature.Registry.Validator.{features_by_name}
use clearfeature.Registry.Names.{names, length-names, lookup-features_by_name_inv, In-names}
use clearfeature.Planner.{
  PlannerError, out_of_fuel, unknown_feature, group_references_unknown, no_outputs,
  externally_written, batch_only, is_model, batch_only_dependency, visit_edges, visit_feature,
  visit, validate_deps, check_lifecycle, check_computable, add, add_names, add_groups, groups_of,
  plan_features,
}

abbrev Ends : {A : Type 0} → Result PlannerError A → Type 0
Ends r = Avoids out_of_fuel r

Ends-reject :
    {A : Type 0} (bad : Bool) (problem : PlannerError) (later : Result PlannerError A)
    → Ends {A = A} (err problem)
    → Ends later
    → Ends (reject_if bad problem >> later)
Ends-reject true problem later raised fine = raised
Ends-reject false problem later raised fine = fine

visit_edges-Ends :
    (go : String → List String → Result PlannerError (List String))
    (by_name : Dict String FeatureDef) (name : String)
    → ((n : String) (done : List String) → Ends (go n done))
    → (ds : List FeatureDependency) (done : List String)
    → Ends (visit_edges go by_name name ds done)
unfolding visit_edges
visit_edges-Ends go by_name name ends [] done = Avoids-ok out_of_fuel _
visit_edges-Ends go by_name name ends (d ∷ ds) done =
    elim (Option-cases (lookup d.feature by_name)) [
      | inl missing ↦ rw (missing, visit_edges) (record { avoids = λ e. cc })
      | inr (t, known) ↦
          rw (known, visit_edges)
            (Ends-reject (is_model t.kind) (batch_only_dependency name d.feature) _
              (record { avoids = λ e. cc })
              (Avoids->>= out_of_fuel (go d.feature done) _ (ends d.feature done)
                (λ done'. visit_edges-Ends go by_name name ends ds done')))
    ]

visit_feature-Ends :
    (go : String → List String → Result PlannerError (List String))
    (by_name : Dict String FeatureDef) (name : String) (done : List String)
    → ((f : FeatureDef)
        → lookup name by_name ≡ some f
        → (n : String) (d : List String) → Ends (go n d))
    → Ends (visit_feature go by_name name done)
unfolding visit_feature
visit_feature-Ends go by_name name done ends = elim (Option-cases (lookup name by_name)) [
  | inl missing ↦ rw (missing, visit_feature) (record { avoids = λ e. cc })
  | inr (f, known) ↦
      rw (known, visit_feature)
        (Avoids->>= out_of_fuel (visit_edges go by_name name f.deps done) _
          (visit_edges-Ends go by_name name (ends f known) f.deps done)
          (λ done'. Avoids-ok out_of_fuel _))
]

module _ (fs : List FeatureDef) where
  visit-Ends :
      (fuel : ℕ) (visiting : List String) (n : String) (done : List String)
      → IsUnique visiting
      → ((v : String) → In v visiting → In v (names fs))
      → length fs < length visiting + fuel
      → Ends (visit fuel (features_by_name fs) visiting n done)
  unfolding visit
  visit-Ends zero visiting n done u sub h =
      absurd (omega (arith, length-le_of_IsUnique visiting (names fs) u sub, length-names fs))
  visit-Ends (suc fuel) visiting n done u sub h = elim (Bool-cases (contains done n)) [
    | inl there ↦ rw (there, visit) (Avoids-ok out_of_fuel _)
    | inr new ↦ elim (Bool-cases (contains visiting n)) [
      | inl cycle ↦ rw (new, visit, cycle) (record { avoids = λ e. cc })
      | inr fresh ↦
          rw (new, visit, fresh)
            (visit_feature-Ends (visit fuel (features_by_name fs) (visiting ++ n ∷ []))
              (features_by_name fs) n done
              (λ f known k d.
                let (i, e) = lookup-features_by_name_inv fs n f known in
                visit-Ends fuel (visiting ++ n ∷ []) k d
                  (IsUnique-snoc visiting n u (not-In visiting n fresh))
                  (λ v j. elim (In-append v visiting (n ∷ []) j) [
                    | inl old ↦ sub v old
                    | inr (inl p) ↦ rw (p, ← e) (In-names f fs i)
                    | inr (inr no_more) ↦ elim no_more [ ]
                  ])
                  (omega (arith, length-append visiting (n ∷ [])))))
    ]
  ]

  validate_deps-Ends :
      (fuel : ℕ) (ns done : List String)
      → length fs < fuel
      → Ends (validate_deps fuel (features_by_name fs) ns done)
  unfolding validate_deps
  validate_deps-Ends fuel [] done h = Avoids-ok out_of_fuel _
  validate_deps-Ends fuel (n ∷ ns) done h =
      Avoids->>= out_of_fuel (visit fuel (features_by_name fs) [] n done) _
        (visit-Ends fuel [] n done tt (λ v i. elim i [ ]) (omega arith))
        (λ done'. validate_deps-Ends fuel ns done' h)

check_lifecycle-Ends :
    (allow : Bool) (name : String) (l : Lifecycle) → Ends (check_lifecycle allow name l)
unfolding check_lifecycle
check_lifecycle-Ends allow name draft = record { avoids = λ e. cc }
check_lifecycle-Ends true name shadow = Avoids-ok out_of_fuel _
check_lifecycle-Ends false name shadow = record { avoids = λ e. cc }
check_lifecycle-Ends allow name live = Avoids-ok out_of_fuel _
check_lifecycle-Ends allow name deprecated = record { avoids = λ e. cc }

check_computable-Ends :
    (allow : Bool) (f : FeatureDef) (name : String) → Ends (check_computable allow f name)
unfolding check_computable
check_computable-Ends allow f name = of_kind f.kind
  where
    of_kind :
        (k : Kind)
        → Ends (elim k [
          | model_score ↦ err (externally_written name)
          | model ↦ err (batch_only name)
          | udf ↦ check_lifecycle allow name f.lifecycle
        ])
    of_kind model_score = record { avoids = λ e. cc }
    of_kind model = record { avoids = λ e. cc }
    of_kind udf = check_lifecycle-Ends allow name f.lifecycle

Ends->> :
    {A : Type 0} (check : Result PlannerError (Unit {0})) (later : Result PlannerError A)
    → Ends check
    → Ends later
    → Ends (check >> later)
Ends->> (err problem) later fine ends = record { avoids = λ p. fine.avoids (cc p) }
Ends->> (ok _) later fine ends = ends

module _ (by_name : Dict String FeatureDef) (allow : Bool) where
  add_names-Ends :
      (missing : String → PlannerError) (ns ordered : List String)
      → ((n : String) → Ends {A = List String} (err (missing n)))
      → Ends (add_names by_name allow missing ns ordered)
  unfolding add_names
  add_names-Ends missing [] ordered raised = Avoids-ok out_of_fuel _
  add_names-Ends missing (n ∷ ns) ordered raised = elim (Option-cases (lookup n by_name)) [
    | inl unknown ↦ rw (unknown, add_names) (raised n)
    | inr (f, known) ↦
        rw (known, add_names)
          (Ends->> (check_computable allow f n) _ (check_computable-Ends allow f n)
            (add_names-Ends missing ns (add n ordered) raised))
  ]

  add_groups-Ends :
      (groups : Dict String (List String)) (wanted : List String)
      (expanded : Dict String (List String)) (ordered : List String)
      → Ends (add_groups by_name groups allow wanted expanded ordered)
  unfolding add_groups
  add_groups-Ends groups [] expanded ordered = Avoids-ok out_of_fuel _
  add_groups-Ends groups (g ∷ wanted) expanded ordered = elim (Option-cases (lookup g groups)) [
    | inl unknown ↦ rw (unknown, add_groups) (record { avoids = λ e. cc })
    | inr (members, known) ↦
        rw (known, add_groups)
          (Avoids->>= out_of_fuel (add_names by_name allow group_references_unknown members ordered)
            _
            (add_names-Ends group_references_unknown members ordered
              (λ n. record { avoids = λ e. cc }))
            (λ ordered'. add_groups-Ends groups wanted (insert g members expanded) ordered'))
  ]

-- Every request of every view is planned or refused by an error of the program: the fuel is enough.
pub plan_features-Ends :
    (v : FeatureViewDef) (requested groups : List String) (allow : Bool)
    → Ends (plan_features v requested groups allow)
unfolding plan_features
plan_features-Ends v requested groups allow =
    Avoids->>= out_of_fuel
      (add_names (features_by_name v.features) allow unknown_feature requested []) _
      (add_names-Ends _ allow unknown_feature requested [] (λ n. record { avoids = λ e. cc }))
      (λ explicit.
        Avoids->>= out_of_fuel
          (add_groups (features_by_name v.features) (groups_of v.feature_groups []) allow groups []
            explicit)
          _ (add_groups-Ends _ allow (groups_of v.feature_groups []) groups [] explicit)
          (λ (expanded, ordered).
            Ends-reject (length ordered == 0) no_outputs _ (record { avoids = λ e. cc })
              (Avoids->>= out_of_fuel
                (validate_deps (suc (length v.features)) (features_by_name v.features) ordered []) _
                (validate_deps-Ends v.features (suc (length v.features)) ordered [] (omega arith))
                (λ done. Avoids-ok out_of_fuel _))))
