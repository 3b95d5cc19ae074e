-- ===== src/Raw.antt =====
-- Raw reports: `RawReportMeta` of fs_core/models.py and the in-memory repository of
-- fs_core/raw/meta_repository.py. The clock is an argument.
pub mod Meta
pub mod Upsert
pub mod History
pub mod Loader
mod Tests
