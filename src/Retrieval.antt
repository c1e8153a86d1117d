-- ===== src/Retrieval.antt =====
-- retrieval_route.py: who may ask, and what is answered.
pub mod Identity
pub mod Route
pub mod Identified
pub mod Served
mod Tests
