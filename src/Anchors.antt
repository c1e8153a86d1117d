-- ===== src/Anchors.antt =====
-- The daily anchors of anchor_logger.py: a Merkle root over the audit rows of a day.
pub mod Merkle
pub mod Daily
pub mod Levels
pub mod Verified
mod Tests
