-- ===== src/Registry/Features.antt =====
-- fs_core/registry/models.py: dependencies, model specs and features.
use clearfeature.Prelude.{
  ℕ, String, Bool, true, false, not, ◌&&◌, ◌||◌, Option, none, some, is_some, List, [], ◌∷◌, map,
  ltb, is_blank, Result, ok, err, ◌>>=◌, ◌>>◌, reject_if, ℤ, pos, negsuc, contains,
}
use clearfeature.Domain.{FeatureRef}
use clearfeature.Registry.States.{
  RegistryError, empty_name, duplicate_name, bad_version, negative_age, unknown_propagation,
  empty_model_field, not_batch_only, unsupported_kind, empty_field, unknown_lifecycle,
  unexpected_model, missing_udf, no_inputs, missing_model, unexpected_udf, raw_inputs,
  no_dependencies, score_with_inputs, Lifecycle, Propagation, Kind, udf, model_score, model,
  normalize_lifecycle, read_kind, read_propagation,
}

-- `Optional[...]` of a checked value: an unknown token raises.
abbrev pub or_raise {ℓ} : {A : Type ℓ} → Option A → RegistryError → Result RegistryError A
or_raise none e = err e
or_raise (some a) e = ok a

abbrev pub is_empty {ℓ} : {A : Type ℓ} → List A → Bool
is_empty [] = true
is_empty (_ ∷ _) = false

check_names_from : List String → List String → Result RegistryError (Unit {0})
unfolding is_blank contains
check_names_from seen [] = ok tt
check_names_from seen (name ∷ names) = do
  reject_if (is_blank name) empty_name
  reject_if (contains seen name) duplicate_name
  check_names_from (name ∷ seen) names

unfoldable pub check_no_empty_or_duplicate : List String → Result RegistryError (Unit {0})
unfolding check_names_from
check_no_empty_or_duplicate names = check_names_from [] names

pub record FeatureDependency : Type 0 where
  pub feature : String
  pub version : Option ℕ
  pub required : Bool
  pub max_input_age_seconds : Option ℕ
  pub propagation : Propagation

-- `max_input_age_seconds` may be given negative, and is then refused.
unfoldable pub checked_age : Option ℤ → Result RegistryError (Option ℕ)
checked_age none = ok none
checked_age (some (pos n)) = ok (some n)
checked_age (some (negsuc n)) = err negative_age

unfoldable pub feature_dependency :
    String → Option ℕ → Bool → Option ℤ → String → Result RegistryError FeatureDependency
unfolding is_blank checked_age read_propagation
feature_dependency feature version required max_age propagation = do
  reject_if (is_blank feature) empty_name
  reject_if (elim version [ none ↦ false | some v ↦ ltb v 1 ]) bad_version
  age ← checked_age max_age
  policy ← or_raise (read_propagation propagation) unknown_propagation
  ok (record {
    feature = feature;
    version = version;
    required = required;
    max_input_age_seconds = age;
    propagation = policy;
  })

-- A bare name among the `deps` is an edge with the defaults.
pub data DependencyArg : Type 0 where
  bare : String → DependencyArg
  edge : FeatureDependency → DependencyArg

unfoldable pub normalize_dependency : DependencyArg → Result RegistryError FeatureDependency
unfolding feature_dependency
normalize_dependency (edge d) = ok d
normalize_dependency (bare name) = feature_dependency name none true none "lazy"

unfoldable pub normalize_dependencies :
    List DependencyArg → Result RegistryError (List FeatureDependency)
unfolding normalize_dependency
normalize_dependencies [] = ok []
normalize_dependencies (d ∷ ds) = do
  d' ← normalize_dependency d
  ds' ← normalize_dependencies ds
  ok (d' ∷ ds')

pub record ModelSpec : Type 0 where
  pub uri : String
  pub digest : String
  pub output_name : String
  pub runner : Option String
  pub batch_only : Bool

unfoldable pub model_spec :
    String → String → String → Option String → Bool → Result RegistryError ModelSpec
unfolding is_blank
model_spec uri digest output_name runner batch_only = do
  reject_if (is_blank uri) empty_model_field
  reject_if (is_blank digest) empty_model_field
  reject_if (is_blank output_name) empty_model_field
  reject_if (not batch_only) not_batch_only
  ok (record {
    uri = uri;
    digest = digest;
    output_name = output_name;
    runner = runner;
    batch_only = batch_only;
  })

pub record FeatureDef : Type 0 where
  pub name : String
  pub kind : Kind
  pub feature_version : ℕ
  pub udf_name : String
  pub dtype : String
  pub status : String
  pub inputs : List String
  pub deps : List FeatureDependency
  pub model_of : Option ModelSpec
  pub description : Option String
  pub lifecycle : Lifecycle

-- The arguments of `FeatureDef(...)`.
pub record FeatureArgs : Type 0 where
  pub name : String
  pub kind : String
  pub feature_version : ℕ
  pub udf_name : String
  pub dtype : String
  pub status : String
  pub inputs : List String
  pub deps : List DependencyArg
  pub model_of : Option ModelSpec
  pub description : Option String

abbrev is_model : Kind → Bool
is_model model = true
is_model _ = false

-- The checks that depend on the kind.
unfoldable pub check_kind :
    Kind → FeatureArgs → List FeatureDependency → Result RegistryError (Unit {0})
unfolding is_blank
check_kind udf a deps = do
  reject_if (is_blank a.udf_name) missing_udf
  reject_if (is_empty a.inputs && is_empty deps) no_inputs
check_kind model a deps = do
  reject_if (not (is_some a.model_of)) missing_model
  reject_if (not (is_blank a.udf_name)) unexpected_udf
  reject_if (not (is_empty a.inputs)) raw_inputs
  reject_if (is_empty deps) no_dependencies
check_kind model_score a deps =
    reject_if (not (is_empty a.inputs) || not (is_empty deps)) score_with_inputs

unfoldable pub feature_def : FeatureArgs → Result RegistryError FeatureDef
unfolding is_blank normalize_dependencies read_kind normalize_lifecycle check_kind
feature_def a = do
  deps ← normalize_dependencies a.deps
  reject_if (is_blank a.name) empty_name
  kind ← or_raise (read_kind a.kind) unsupported_kind
  reject_if (ltb a.feature_version 1) bad_version
  reject_if (is_blank a.dtype) empty_field
  reject_if (is_blank a.status) empty_field
  lifecycle ← or_raise (normalize_lifecycle a.status) unknown_lifecycle
  reject_if (not (is_model kind) && is_some a.model_of) unexpected_model
  check_kind kind a deps
  ok (record {
    name = a.name;
    kind = kind;
    feature_version = a.feature_version;
    udf_name = a.udf_name;
    dtype = a.dtype;
    status = a.status;
    inputs = a.inputs;
    deps = deps;
    model_of = a.model_of;
    description = a.description;
    lifecycle = lifecycle;
  })

abbrev pub dep_names : FeatureDef → List String
dep_names f = map (λ d. d.feature) f.deps

-- `FeatureDef.ref`
abbrev pub ref : FeatureDef → FeatureRef
ref f = record { name = f.name; version = f.feature_version }
