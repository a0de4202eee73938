-- ===== src/WebSocket.antt =====
-- src/server_fn/websocket.rs: checking the upgrade and the frames of a server-function
-- WebSocket, and assembling its messages.
pub mod Frames
pub mod Codec
pub mod Assembly
pub mod Handshake
