-- ===== src/Http.antt =====
-- The values of include/async_net/http/types.hpp that the HTTP protocols share.
pub mod Text
pub mod Method
pub mod Headers
pub mod Message
pub mod Uri
mod Examples
