-- ===== src/Http1.antt =====
-- The HTTP/1.1 codec of src/http/http1_codec.cpp.
pub mod Lines
pub mod Body
pub mod Codec
pub mod Fields
pub mod Heads
pub mod Requests
pub mod Responses
pub mod Hex
pub mod Chunks
mod Examples
