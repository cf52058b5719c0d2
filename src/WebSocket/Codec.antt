-- ===== src/WebSocket/Codec.antt =====
-- What the frame codec of include/async_net/http/websocket.hpp guarantees.
pub mod Header
pub mod Masking
pub mod RoundTrip
pub mod Prefix
