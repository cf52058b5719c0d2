-- ===== src/Http2/Session.antt =====
-- `http2_session` of src/http/http2_session.cpp: the connection above the frames.
pub mod State
pub mod Frames
pub mod Submit
pub mod Dispatch
pub mod Payload
pub mod Flow
pub mod Receive
pub mod Settings
pub mod Feed
pub mod Delivered
pub mod Fields
pub mod Messages
pub mod Streams
pub mod Inv
pub mod Fragments
pub mod Credit
pub mod Bodies
mod Examples
