-- ===== src/Jobs.antt =====
-- backend/app/jobs: investigation jobs, their event logs, and the two stores that keep them.
pub mod Models
pub mod Sequencer
pub mod Store
pub mod Distributed
mod Examples
