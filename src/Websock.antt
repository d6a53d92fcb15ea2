-- ===== src/Websock.antt =====
-- src/websock.c: the WebSocket protocol of version 13.
pub mod Frame
pub mod Mask
pub mod Data
pub mod Send
pub mod Reading
pub mod Dispatch
pub mod Lengths
pub mod Delivery
pub mod Payload
pub mod Headers
pub mod Closing
