-- ===== src/Grants.antt =====
-- runtime/action_grants.py: signed, expiring, single-use grants for one call of one tool.
pub mod Token
pub mod Laws
pub mod Accepted
pub mod Once
pub mod Refinement
pub mod RoundTrip
mod Tests
