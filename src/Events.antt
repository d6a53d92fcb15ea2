-- ===== src/Events.antt =====
-- src/afb-evt.c: events, their listeners, and the watches that join them.
pub mod Structs
pub mod Store
pub mod Watching
pub mod Ids
pub mod Choosing
pub mod Searching
pub mod Links
pub mod Destroying
pub mod Watches
pub mod Following
pub mod Making
pub mod Pushing
pub mod Histories
