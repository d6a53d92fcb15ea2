-- ===== src/Tests.antt =====
-- Runs of the model at concrete inputs, and the theorems applied there.
mod Sessions
mod Contexts
mod Calls
mod Frames
mod Routes
mod Jobs
mod Replies
mod Events
mod Peers
