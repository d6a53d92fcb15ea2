-- ===== src/ApiWs.antt =====
-- src/afb-api-ws.c: APIs of another process, over a WebSocket.
pub mod Buffers
pub mod Messages
pub mod State
pub mod Client
pub mod Strings
pub mod Layouts
pub mod Memos
pub mod Balance
pub mod Follows
pub mod Calls
pub mod Replies
pub mod Server
pub mod Peers
