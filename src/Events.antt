-- ===== src/Events.antt =====
-- fs_core/events/models.py: the events, each with its checks and its JSON form.
pub mod Entity
pub mod Report
pub mod ComputeRequested
pub mod ComputeCompleted
pub mod Updated
pub mod Score
pub mod ScoreWrite
pub mod Item
pub mod ChunkRequested
pub mod ChunkProcessed
pub mod DeadLetter
pub mod OfflineWrite
pub mod RoundTrips
mod Tests
mod BatchTests
