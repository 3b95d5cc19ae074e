-- ===== src/Registry/Views.antt =====
-- fs_core/registry/models.py: entities, sources, views and the registry.
use clearfeature.Prelude.{
  ℕ, String, Bool, false, not, ◌&&◌, Option, none, some, List, [], ◌∷◌, ltb, leb, ◌==◌, str_eq,
  if◌then◌else◌, is_blank, Result, ok, err, ◌>>◌, reject_if,
}
use clearfeature.Registry.States.{
  RegistryError, empty_name, no_key_fields, unsupported_source, bad_version, empty_field,
  no_features, bad_depth_cap, empty_group, empty_registry, unknown_view,
}
use clearfeature.Registry.Features.{FeatureDef, is_empty, check_no_empty_or_duplicate}

abbrev pub default_dependency_depth_cap : ℕ
default_dependency_depth_cap = 3

abbrev pub max_dependency_depth_cap : ℕ
max_dependency_depth_cap = 5

pub record EntityDef : Type 0 where
  pub name : String
  pub key_fields : List String

unfoldable pub entity_def : String → List String → Result RegistryError EntityDef
unfolding is_blank check_no_empty_or_duplicate
entity_def name key_fields = do
  reject_if (is_blank name) empty_name
  reject_if (is_empty key_fields) no_key_fields
  check_no_empty_or_duplicate key_fields
  ok (record { name = name; key_fields = key_fields })

pub record SourceDef : Type 0 where
  pub name : String
  pub type : String
  pub report_type : String
  pub ts_field : String

unfoldable pub source_def : String → String → String → String → Result RegistryError SourceDef
unfolding is_blank
source_def name type report_type ts_field = do
  reject_if (is_blank name) empty_name
  reject_if (not (str_eq type "raw_report")) unsupported_source
  reject_if (is_blank report_type) empty_field
  reject_if (is_blank ts_field) empty_field
  ok (record { name = name; type = type; report_type = report_type; ts_field = ts_field })

pub record FeatureViewDef : Type 0 where
  pub name : String
  pub entity : String
  pub key_fields : List String
  pub view_version : ℕ
  pub owner : String
  pub status : String
  pub features : List FeatureDef
  pub feature_groups : List (String × List String)
  pub max_dependency_depth : Option ℕ

unfoldable pub check_groups : List (String × List String) → Result RegistryError (Unit {0})
unfolding is_blank check_no_empty_or_duplicate
check_groups [] = ok tt
check_groups ((group, members) ∷ rest) = do
  reject_if (is_blank group) empty_name
  reject_if (is_empty members) empty_group
  check_no_empty_or_duplicate members
  check_groups rest

-- `max_dependency_depth is not None and not (1 <= max_dependency_depth <= 5)`
abbrev bad_cap : Option ℕ → Bool
bad_cap none = false
bad_cap (some n) = not (leb 1 n && leb n max_dependency_depth_cap)

-- The checks of `__post_init__` on a view that holds the arguments.
unfoldable pub feature_view_def : FeatureViewDef → Result RegistryError FeatureViewDef
unfolding is_blank check_no_empty_or_duplicate check_groups
feature_view_def v = do
  reject_if (is_blank v.name) empty_name
  reject_if (is_blank v.entity) empty_name
  reject_if (is_empty v.key_fields) no_key_fields
  check_no_empty_or_duplicate v.key_fields
  reject_if (ltb v.view_version 1) bad_version
  reject_if (is_blank v.owner) empty_field
  reject_if (is_blank v.status) empty_field
  reject_if (is_empty v.features) no_features
  reject_if (bad_cap v.max_dependency_depth) bad_depth_cap
  check_groups v.feature_groups
  ok v

pub record Registry : Type 0 where
  pub registry_version : String
  pub entities : List EntityDef
  pub sources : List SourceDef
  pub feature_views : List FeatureViewDef

unfoldable pub registry_def : Registry → Result RegistryError Registry
unfolding is_blank
registry_def r = do
  reject_if (is_blank r.registry_version) empty_field
  reject_if (is_empty r.entities) empty_registry
  reject_if (is_empty r.sources) empty_registry
  reject_if (is_empty r.feature_views) empty_registry
  ok r

unfoldable pub find_view_in : String → ℕ → List FeatureViewDef → Result RegistryError FeatureViewDef
find_view_in name version [] = err unknown_view
find_view_in name version (v ∷ vs) =
    if str_eq v.name name && (v.view_version == version) then ok v else find_view_in name version vs

unfoldable pub find_view : Registry → String → ℕ → Result RegistryError FeatureViewDef
unfolding find_view_in
find_view r name version = find_view_in name version r.feature_views
