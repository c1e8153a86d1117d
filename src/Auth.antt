-- ===== src/Auth.antt =====
-- runtime/request_auth.py: who sends a request, and what is theirs.
pub mod Envelope
pub mod Verified
pub mod Once
pub mod Tokens
pub mod TokenLaws
pub mod Owners
mod Tests
