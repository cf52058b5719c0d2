-- ===== src/WebSocket/Handshake.antt =====
-- `compute_accept_key` of include/async_net/http/websocket.hpp.
mod Tests
use async_net.Base.{ℕ, List, ◌++◌, bytes}
use async_net.WebSocket.Sha1.{compute}
use async_net.WebSocket.Base64.{base64_encode}

abbrev pub ws_guid : List ℕ
ws_guid = bytes "258EAFA5-E914-47DA-95CA-C5AB0DC85B11"

unfoldable pub compute_accept_key : List ℕ → List ℕ
unfolding base64_encode compute
compute_accept_key key = base64_encode (compute (key ++ ws_guid))
