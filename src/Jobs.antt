-- ===== src/Jobs.antt =====
-- job_store.py: the tables genesis_jobs and genesis_job_events, and the functions over them.
pub mod Table
pub mod Operations
pub mod Rows
pub mod Outcomes
pub mod Updates
pub mod History
mod Log
pub mod Consistency
pub mod Tenants
pub mod Terminal
pub mod Claims
pub mod Reaper
pub mod Children
pub mod Idempotency
mod Order
mod Tests
