-- ===== src/Session.antt =====
-- src/session.c: the sessions of clients.
pub mod Data
pub mod Slots
pub mod Table
pub mod Store
pub mod Create
pub mod Clients
pub mod Closing
pub mod Expiry
pub mod Entering
pub mod Acquire
pub mod Reuse
pub mod References
pub mod Tokens
pub mod Histories
