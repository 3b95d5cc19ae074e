-- ===== src/Registry.antt =====
-- fs_core/registry/models.py: the value objects of the registry contract. A dataclass's
-- `__post_init__` is a function that makes the record or raises; its raw arguments keep the
-- source's types, and the record holds what the checks let through.
pub mod States
pub mod Features
pub mod Views
pub mod Validator
pub mod Names
pub mod Graph
mod Tests
pub use States.{
  Lifecycle, draft, shadow, live, deprecated, Propagation, lazy, reactive, scheduled, never, Kind,
  udf, model_score, model,
}
pub use Features.{FeatureDependency, ModelSpec, FeatureDef}
pub use Views.{EntityDef, SourceDef, FeatureViewDef, Registry}
