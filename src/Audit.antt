-- ===== src/Audit.antt =====
-- audit.py: the append-only log whose rows are chained by SHA-256, and its verification.
pub mod Chain
pub mod Append
pub mod Rows
pub mod Laws
pub mod Histories
pub mod Tampering
pub mod Summaries
pub mod Redaction
pub mod Secrets
mod Tests
