-- ===== src/Registry/Graph.antt =====
-- fs_core/registry/validator.py: what a passed check of the dependency graph means.
pub mod Rank
pub mod Accepted
pub mod Checks
pub mod Closure
pub mod Fuel
