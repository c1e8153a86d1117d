-- ===== src/Gateway.antt =====
-- main.py: the HTTP gateway, its identities, and its routes over the job store.
pub mod Http
pub mod Identity
pub mod Ownership
pub mod Submit
pub mod Bodies
pub mod Created
pub mod Identified
pub mod Owned
pub mod Unsigned
pub mod Readable
pub mod Keys
pub mod Context
pub mod Scoped
pub mod Described
pub mod Disputes
pub mod Cases
pub mod Run
pub mod Execute
pub mod Escrows
pub mod Closed
mod Tests
