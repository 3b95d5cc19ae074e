-- ===== src/Samples.antt =====
-- Small inputs for the tests of every component.
use clearfeature.Prelude.{ℕ, String, true, Option, none, some, List, [], ◌∷◌}
use clearfeature.Domain.{EntityKey, FeatureResult}
use clearfeature.Registry.{
  live, udf, reactive, FeatureDependency, FeatureDef, FeatureViewDef, Registry,
}

abbrev pub user : EntityKey
user = record { parts = ("user_id", "7") ∷ [] }

-- A result of the feature `income` with the value 3.
abbrev pub income_at : ℕ → ℕ → Option String → FeatureResult ℕ
income_at data_ts calc_ts fingerprint = record {
  ref = record { name = "income"; version = 1 };
  entity = user;
  value = 3;
  data_ts = data_ts;
  calc_ts = calc_ts;
  max_input_data_ts = none;
  input_fingerprint = fingerprint;
  value_hash = none;
  available_at = none;
  availability_source = none;
  model_uri = none;
  model_digest = none;
  model_output_name = none;
  bundle_digest = none;
}

abbrev pub edge_to : String → FeatureDependency
edge_to name = record {
  feature = name;
  version = some 1;
  required = true;
  max_input_age_seconds = some 60;
  propagation = reactive;
}

abbrev pub feature_of : String → List String → List FeatureDependency → FeatureDef
feature_of name inputs deps = record {
  name = name;
  kind = udf;
  feature_version = 1;
  udf_name = name;
  dtype = "float";
  status = "live";
  inputs = inputs;
  deps = deps;
  model_of = none;
  description = none;
  lifecycle = live;
}

abbrev pub income : FeatureDef
income = feature_of "income" ("bureau" ∷ []) []

abbrev pub ratio : FeatureDef
ratio = feature_of "ratio" [] (edge_to "income" ∷ [])

abbrev pub risk_view : FeatureViewDef
risk_view = record {
  name = "risk";
  entity = "user";
  key_fields = "user_id" ∷ [];
  view_version = 2;
  owner = "team";
  status = "live";
  features = ratio ∷ income ∷ [];
  feature_groups = ("all", "income" ∷ "ratio" ∷ []) ∷ [];
  max_dependency_depth = none;
}

abbrev pub sample_registry : Registry
sample_registry = record {
  registry_version = "1";
  entities = record { name = "user"; key_fields = "user_id" ∷ [] } ∷ [];
  sources =
      record { name = "bureau"; type = "raw_report"; report_type = "bureau"; ts_field = "ts" } ∷ [];
  feature_views = risk_view ∷ [];
}
