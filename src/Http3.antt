-- ===== src/Http3.antt =====
-- The HTTP/3 frame codec of src/http/h3_frame.hpp.
pub mod Varint
pub mod Frame
pub mod Reader
mod Examples
