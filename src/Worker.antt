-- ===== src/Worker.antt =====
-- The job worker of worker.py, with the escrow guard of escrow_guard.py.
pub mod Profile
pub mod Callback
pub mod Process
pub mod Tick
pub mod Money
pub mod Outcome
pub mod Reports
pub mod Attempts
mod Tests
