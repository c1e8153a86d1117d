-- ===== src/Policy.antt =====
-- runtime/tool_policy.py: which agent slug may call which tool, and the boot assertion.
pub mod Tables
pub mod Risks
pub mod Check
pub mod Boot
pub mod Laws
pub mod BootLaws
mod Tests
