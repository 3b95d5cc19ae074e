-- ===== src/Compute.antt =====
-- fs_core/compute: computing the requested features of one entity, over a context that loads each
-- source once and computes each feature once.
pub mod Context
pub mod Derive
pub mod Resolve
pub mod Bounds
pub mod Traced
pub mod Walk
pub mod Stored
pub mod Finished
pub mod Sound
pub mod Results
pub mod Fuel
pub mod Ends
mod Tests
