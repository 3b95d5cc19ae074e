-- ===== src/Registry/Validator.antt =====
-- fs_core/registry/validator.py: the checks between the objects of a registry. The search for
-- cycles and depths recurs on fuel; `out_of_fuel` is no outcome of the program, and Graph/Fuel.antt
-- shows that the fuel given is enough.
use Prim.Native.Nat.{max}
use clearfeature.Prelude.{
  ℕ, zero, suc, ◌+◌, String, Bool, true, false, not, ◌&&◌, Option, none, some, List, [], ◌∷◌, ◌++◌,
  map, length, ltb, ◌==◌, if◌then◌else◌, str_eq, contains, Dict, string_key, lookup, insert, Result,
  ok, err, ◌>>=◌, ◌>>◌, reject_if,
}
use clearfeature.Registry.{FeatureDependency, FeatureDef, EntityDef, FeatureViewDef, Registry}
use clearfeature.Registry.States.{allowed_dependency}
use clearfeature.Registry.Views.{default_dependency_depth_cap}

-- The `ValueError`s, by what they report. `missing_feature` is the `KeyError` of
-- `features_by_name[name]`.
pub data ValidationError : Type 0 where
  duplicate_name : String → ValidationError
  unknown_entity key_fields_differ : String → ValidationError
  unknown_source unknown_dependency version_pin dependency_lifecycle :
      String → String → ValidationError
  dependency_cycle : List String → ValidationError
  too_deep : String → ℕ → ValidationError
  unknown_member : String → String → ValidationError
  missing_feature : String → ValidationError
  out_of_fuel : ValidationError

-- Returns the set of the names, as a list.
unfoldable pub unique_from : List String → List String → Result ValidationError (List String)
unfolding contains
unique_from seen [] = ok seen
unique_from seen (name ∷ names) = do
  reject_if (contains seen name) (duplicate_name name)
  unique_from (name ∷ seen) names

unfoldable pub unique_names : List String → Result ValidationError (List String)
unfolding unique_from
unique_names names = unique_from [] names

-- `{f.name: f for f in features}`
unfoldable pub dict_from : Dict String FeatureDef → List FeatureDef → Dict String FeatureDef
unfolding insert
dict_from d [] = d
dict_from d (f ∷ fs) = dict_from (insert f.name f d) fs

unfoldable pub features_by_name : List FeatureDef → Dict String FeatureDef
unfolding dict_from
features_by_name fs = dict_from [] fs

abbrev pub Memo : Type 0
Memo = Dict String ℕ

-- `max(_depth(dep.feature) for dep in deps)`, with the memo that the calls share.
unfoldable pub deepest :
    (String → Memo → Result ValidationError (ℕ × Memo))
    → List FeatureDependency
    → ℕ
    → Memo
    → Result ValidationError (ℕ × Memo)
deepest depth_of [] best memo = ok (best, memo)
deepest depth_of (d ∷ ds) best memo = do
  (depth, memo') ← depth_of d.feature memo
  deepest depth_of ds (max best depth) memo'

-- `0 if not deps else 1 + max(...)`
unfoldable pub depth_over :
    (String → Memo → Result ValidationError (ℕ × Memo))
    → List FeatureDependency
    → Memo
    → Result ValidationError (ℕ × Memo)
unfolding deepest
depth_over depth_of [] memo = ok (0, memo)
depth_over depth_of (d ∷ ds) memo = do
  (best, memo') ← deepest depth_of (d ∷ ds) 0 memo
  ok (1 + best, memo')

-- What `_depth` does past the two tests on its name.
unfoldable pub enter :
    (String → Memo → Result ValidationError (ℕ × Memo))
    → Dict String FeatureDef
    → ℕ
    → String
    → Memo
    → Result ValidationError (ℕ × Memo)
unfolding depth_over lookup insert
enter depth_of by_name cap name memo = elim (lookup name by_name) [
  | none ↦ err (missing_feature name)
  | some feature ↦ do
    (d, memo') ← depth_over depth_of feature.deps memo
    if ltb cap d then err (too_deep name d) else ok (d, insert name d memo')
]

unfoldable pub depth_of :
    ℕ → Dict String FeatureDef → ℕ → List String → String → Memo → Result ValidationError (ℕ × Memo)
unfolding enter lookup contains
depth_of zero by_name cap visiting name memo = err out_of_fuel
depth_of (suc fuel) by_name cap visiting name memo = elim (lookup name memo) [
  | some d ↦ ok (d, memo)
  | none ↦ elim (contains visiting name) [
    | true ↦ err (dependency_cycle (visiting ++ name ∷ []))
    | false ↦ enter (depth_of fuel by_name cap (visiting ++ name ∷ [])) by_name cap name memo
  ]
]

unfoldable pub depth_all :
    ℕ → Dict String FeatureDef → ℕ → List FeatureDef → Memo → Result ValidationError Memo
unfolding depth_of
depth_all fuel by_name cap [] memo = ok memo
depth_all fuel by_name cap (f ∷ fs) memo = do
  (_, memo') ← depth_of fuel by_name cap [] f.name memo
  depth_all fuel by_name cap fs memo'

-- `view.max_dependency_depth or DEFAULT_DEPENDENCY_DEPTH_CAP`
unfoldable pub depth_cap : FeatureViewDef → ℕ
depth_cap v = elim v.max_dependency_depth [
  | none ↦ default_dependency_depth_cap
  | some n ↦ if n == 0 then default_dependency_depth_cap else n
]

-- One call more than the names that can be visited at once.
abbrev pub fuel_for : List FeatureDef → ℕ
fuel_for features = suc (length features)

unfoldable pub validate_dependency_graph : FeatureViewDef → Result ValidationError Memo
unfolding depth_all features_by_name depth_cap
validate_dependency_graph v =
    depth_all (fuel_for v.features) (features_by_name v.features) (depth_cap v) v.features []

unfoldable pub check_inputs : String → List String → List String → Result ValidationError (Unit {0})
unfolding contains
check_inputs feature sources [] = ok tt
check_inputs feature sources (s ∷ rest) = do
  reject_if (not (contains sources s)) (unknown_source feature s)
  check_inputs feature sources rest

-- `dep.version is not None and dep.version != target.feature_version`
abbrev pub pin_differs : Option ℕ → ℕ → Bool
pin_differs none version = false
pin_differs (some pinned) version = not (pinned == version)

unfoldable pub check_dependency :
    Dict String FeatureDef → FeatureDef → FeatureDependency → Result ValidationError (Unit {0})
unfolding lookup allowed_dependency
check_dependency by_name f d = elim (lookup d.feature by_name) [
  | none ↦ err (unknown_dependency f.name d.feature)
  | some target ↦ do
    reject_if (pin_differs d.version target.feature_version) (version_pin f.name d.feature)
    reject_if (not (allowed_dependency f.lifecycle target.lifecycle))
        (dependency_lifecycle f.name d.feature)
]

unfoldable pub check_dependencies :
    Dict String FeatureDef → FeatureDef → List FeatureDependency → Result ValidationError (Unit {0})
unfolding check_dependency
check_dependencies by_name f [] = ok tt
check_dependencies by_name f (d ∷ ds) = do
  check_dependency by_name f d
  check_dependencies by_name f ds

unfoldable pub check_features :
    List String → Dict String FeatureDef → List FeatureDef → Result ValidationError (Unit {0})
unfolding check_inputs check_dependencies
check_features sources by_name [] = ok tt
check_features sources by_name (f ∷ fs) = do
  check_inputs f.name sources f.inputs
  check_dependencies by_name f f.deps
  check_features sources by_name fs

unfoldable pub check_members :
    String → List String → List String → Result ValidationError (Unit {0})
unfolding contains
check_members group names [] = ok tt
check_members group names (m ∷ ms) = do
  reject_if (not (contains names m)) (unknown_member group m)
  check_members group names ms

unfoldable pub check_view_groups :
    List String → List (String × List String) → Result ValidationError (Unit {0})
unfolding check_members
check_view_groups names [] = ok tt
check_view_groups names ((group, members) ∷ rest) = do
  check_members group names members
  check_view_groups names rest

abbrev names_eq : List String → List String → Bool
names_eq [] [] = true
names_eq (a ∷ as') (b ∷ bs) = str_eq a b && names_eq as' bs
names_eq _ _ = false

-- `entities_by_name.get(name)`; among entities of one name the last.
unfoldable pub find_entity : String → List EntityDef → Option EntityDef
find_entity name [] = none
find_entity name (e ∷ es) = elim (find_entity name es) [
  | some found ↦ some found
  | none ↦ if str_eq e.name name then some e else none
]

abbrev pub feature_names : FeatureViewDef → List String
feature_names v = map (λ f. f.name) v.features

-- The body of the loop over the views.
unfoldable pub validate_view :
    List EntityDef → List String → FeatureViewDef → Result ValidationError (Unit {0})
unfolding find_entity unique_names features_by_name check_features validate_dependency_graph
    check_view_groups
validate_view entities sources v = elim (find_entity v.entity entities) [
  | none ↦ err (unknown_entity v.name)
  | some entity ↦ do
    reject_if (not (names_eq v.key_fields entity.key_fields)) (key_fields_differ v.name)
    names ← unique_names (feature_names v)
    check_features sources (features_by_name v.features) v.features
    _ ← validate_dependency_graph v
    check_view_groups names v.feature_groups
]

unfoldable pub validate_views :
    List EntityDef → List String → List FeatureViewDef → Result ValidationError (Unit {0})
unfolding validate_view
validate_views entities sources [] = ok tt
validate_views entities sources (v ∷ vs) = do
  validate_view entities sources v
  validate_views entities sources vs

unfoldable pub validate_registry : Registry → Result ValidationError (Unit {0})
unfolding unique_names validate_views
validate_registry r = do
  _ ← unique_names (map (λ e. e.name) r.entities)
  sources ← unique_names (map (λ s. s.name) r.sources)
  _ ← unique_names (map (λ v. v.name) r.feature_views)
  validate_views r.entities sources r.feature_views
