-- ===== src/Planner.antt =====
-- fs_core/planner.py: from a request of features and groups to the output set that is computed.
pub mod Added
pub mod Planned
pub mod Fuel
pub mod Visited
mod Tests
use clearfeature.Prelude.{
  ℕ, zero, suc, String, Bool, true, false, ◌&&◌, not, Option, none, some, List, [], ◌∷◌, ◌++◌, map,
  length, if◌then◌else◌, ◌==◌, str_eq, contains, Dict, string_key, lookup, insert, Result, ok, err,
  ◌>>=◌, ◌>>◌, reject_if, is_some,
}
use clearfeature.Domain.{FeatureRef}
use clearfeature.Registry.{
  Lifecycle, draft, shadow, live, deprecated, Kind, udf, model_score, model, FeatureDependency,
  FeatureDef, FeatureViewDef,
}
use clearfeature.Registry.States.{eq_lifecycle}
use clearfeature.Registry.Features.{ref}
use clearfeature.Registry.Validator.{features_by_name}

-- The `PlannerError`s, by what they report. `out_of_fuel` is no outcome of the program.
pub data PlannerError : Type 0 where
  unknown_feature unknown_group group_references_unknown : String → PlannerError
  externally_written batch_only is_draft is_shadow not_computable : String → PlannerError
  no_outputs : PlannerError
  dependency_cycle : List String → PlannerError
  unknown_dependency batch_only_dependency : String → String → PlannerError
  out_of_fuel : PlannerError

pub record FeaturePlan : Type 0 where
  pub view : String
  pub view_version : ℕ
  pub requested_outputs : List FeatureRef
  pub compute_features : List String
  pub expanded_groups : Dict String (List String)
  pub shadow_features : List String

-- `_check_computable`, of a feature of the view
unfoldable pub check_lifecycle : Bool → String → Lifecycle → Result PlannerError (Unit {0})
check_lifecycle allow_shadow name draft = err (is_draft name)
check_lifecycle allow_shadow name shadow = reject_if (not allow_shadow) (is_shadow name)
check_lifecycle allow_shadow name live = ok tt
check_lifecycle allow_shadow name deprecated = err (not_computable name)

unfoldable pub check_computable : Bool → FeatureDef → String → Result PlannerError (Unit {0})
unfolding check_lifecycle
check_computable allow_shadow f name = elim f.kind [
  | model_score ↦ err (externally_written name)
  | model ↦ err (batch_only name)
  | udf ↦ check_lifecycle allow_shadow name f.lifecycle
]

-- `_add`; `seen` holds the names of `ordered`
unfoldable pub add : String → List String → List String
unfolding contains
add name ordered = if contains ordered name then ordered else ordered ++ name ∷ []

-- The loops over names: `missing` is the error of a name that the view does not have.
unfoldable pub add_names :
    Dict String FeatureDef
    → Bool
    → (String → PlannerError)
    → List String
    → List String
    → Result PlannerError (List String)
unfolding lookup check_computable add
add_names by_name allow_shadow missing [] ordered = ok ordered
add_names by_name allow_shadow missing (name ∷ names) ordered = elim (lookup name by_name) [
  | none ↦ err (missing name)
  | some f ↦ do
    check_computable allow_shadow f name
    add_names by_name allow_shadow missing names (add name ordered)
]

unfoldable pub add_groups :
    Dict String FeatureDef
    → Dict String (List String)
    → Bool
    → List String
    → Dict String (List String)
    → List String
    → Result PlannerError (Dict String (List String) × List String)
unfolding lookup insert add_names
add_groups by_name groups allow_shadow [] expanded ordered = ok (expanded, ordered)
add_groups by_name groups allow_shadow (group ∷ rest) expanded ordered =
    elim (lookup group groups) [
      | none ↦ err (unknown_group group)
      | some members ↦ do
        ordered' ← add_names by_name allow_shadow group_references_unknown members ordered
        add_groups by_name groups allow_shadow rest (insert group members expanded) ordered'
    ]

abbrev pub is_model : Kind → Bool
is_model model = true
is_model _ = false

-- The loop over the edges of one feature; `done` is the set of the names that were visited.
unfoldable pub visit_edges :
    (String → List String → Result PlannerError (List String))
    → Dict String FeatureDef
    → String
    → List FeatureDependency
    → List String
    → Result PlannerError (List String)
unfolding lookup
visit_edges visit by_name name [] done = ok done
visit_edges visit by_name name (d ∷ ds) done = elim (lookup d.feature by_name) [
  | none ↦ err (unknown_dependency name d.feature)
  | some target ↦ do
    reject_if (is_model target.kind) (batch_only_dependency name d.feature)
    done' ← visit d.feature done
    visit_edges visit by_name name ds done'
]

unfoldable pub visit_feature :
    (String → List String → Result PlannerError (List String))
    → Dict String FeatureDef
    → String
    → List String
    → Result PlannerError (List String)
unfolding lookup visit_edges
visit_feature visit by_name name done = elim (lookup name by_name) [
  | none ↦ err (unknown_feature name)
  | some f ↦ do done' ← visit_edges visit by_name name f.deps done; ok (name ∷ done')
]

-- `_visit`. `visiting` is as it was when a call returns, so each call is given the list it sees.
unfoldable pub visit :
    ℕ
    → Dict String FeatureDef
    → List String
    → String
    → List String
    → Result PlannerError (List String)
unfolding contains visit_feature
visit zero by_name visiting name done = err out_of_fuel
visit (suc fuel) by_name visiting name done = elim (contains done name) [
  | true ↦ ok done
  | false ↦ elim (contains visiting name) [
    | true ↦ err (dependency_cycle (visiting ++ name ∷ []))
    | false ↦ visit_feature (visit fuel by_name (visiting ++ name ∷ [])) by_name name done
  ]
]

unfoldable pub validate_deps :
    ℕ → Dict String FeatureDef → List String → List String → Result PlannerError (List String)
unfolding visit
validate_deps fuel by_name [] done = ok done
validate_deps fuel by_name (name ∷ names) done = do
  done' ← visit fuel by_name [] name done
  validate_deps fuel by_name names done'

-- `features_by_name[name].ref()` of the ordered names, which are all known.
unfoldable pub outputs : Dict String FeatureDef → List String → List FeatureRef
unfolding lookup
outputs by_name [] = []
outputs by_name (name ∷ names) =
    let rest = outputs by_name names in
    elim (lookup name by_name) [ none ↦ rest | some f ↦ ref f ∷ rest ]

unfoldable pub shadows : Dict String FeatureDef → List String → List String
unfolding lookup
shadows by_name [] = []
shadows by_name (name ∷ names) =
    let rest = shadows by_name names in
    elim (lookup name by_name) [
      | none ↦ rest
      | some f ↦ if eq_lifecycle f.lifecycle shadow then name ∷ rest else rest
    ]

-- `dict(view_def.feature_groups)`
unfoldable pub groups_of :
    List (String × List String) → Dict String (List String) → Dict String (List String)
unfolding insert
groups_of [] d = d
groups_of ((name, members) ∷ rest) d = groups_of rest (insert name members d)

unfoldable pub plan_features :
    FeatureViewDef → List String → List String → Bool → Result PlannerError FeaturePlan
unfolding features_by_name groups_of add_names add_groups validate_deps outputs shadows
plan_features v requested_features requested_feature_groups allow_shadow = do
  let by_name = features_by_name v.features
  explicit ← add_names by_name allow_shadow unknown_feature requested_features []
  (expanded, ordered) ←
      add_groups by_name (groups_of v.feature_groups []) allow_shadow requested_feature_groups []
        explicit
  reject_if (length ordered == 0) no_outputs
  _ ← validate_deps (suc (length v.features)) by_name ordered []
  ok (record {
    view = v.name;
    view_version = v.view_version;
    requested_outputs = outputs by_name ordered;
    compute_features = ordered;
    expanded_groups = expanded;
    shadow_features = shadows by_name ordered;
  })
