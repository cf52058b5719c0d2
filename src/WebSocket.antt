-- ===== src/WebSocket.antt =====
-- include/async_net/http/websocket.hpp: the WebSocket protocol.
pub mod Frame
pub mod Codec
pub mod Connection
pub mod Sha1
pub mod Base64
pub mod Handshake
mod Examples
