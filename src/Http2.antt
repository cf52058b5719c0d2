-- ===== src/Http2.antt =====
-- The HTTP/2 layer of src/http: the frame codec of h2_frame.hpp and the header compression.
pub mod Frame
pub mod Reader
pub mod Hpack
pub mod Session
mod Examples
