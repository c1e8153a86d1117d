-- ===== src/Envelope.antt =====
-- tools/_envelope.py: what a tool may answer.
pub mod Values
pub mod Answers
pub mod Laws
mod Tests
