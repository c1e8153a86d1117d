-- ===== src/Runtime.antt =====
-- The agent runtime of agent_runtime.py: what one invocation of an agent does.
pub mod State
pub mod Dispatch
pub mod Calls
pub mod Criteria
pub mod Loop
pub mod Effects
pub mod Invariants
pub mod Runs
pub mod Allowed
pub mod Quota
pub mod Denied
pub mod Deployment
pub mod Counts
pub mod Termination
pub mod Evidence
pub mod Answers
pub mod Settled
pub mod Backed
pub mod Budget
pub mod Delegation
pub mod Hierarchy
mod Samples
mod Tests
