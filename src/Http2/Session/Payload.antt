-- ===== src/Http2/Session/Payload.antt =====
-- The padding and the priority fields that `handle_data` and `handle_headers` of
-- src/http/http2_session.cpp take off a payload.
use async_net.Base.{ℕ, ◌+◌, ◌-◌, List}
use async_net.Base.{ltb, if◌then◌else◌, length, take, drop, at}
use async_net.Http2.Frame.{Frame, has_flag}
use async_net.Http2.Frame.Code.{ErrorCode, protocol_error, frame_size_error}
use async_net.Http2.Frame.Flag

-- A payload without its padding, or the error of a frame where this fails.
pub data Unpadded : Type 0 where
  content : List ℕ → Unpadded
  refused : ErrorCode → Unpadded

unfoldable pub unpad : Frame → Unpadded
unfolding has_flag
unpad f =
    if has_flag f.hdr Flag.padded
    then (if ltb (length f.payload) 1
        then refused frame_size_error
        else if ltb (length f.payload) (1 + at f.payload 0)
        then refused protocol_error
        else content (take (length f.payload - (1 + at f.payload 0)) (drop 1 f.payload)))
    else content f.payload

-- The priority fields that `handle_headers` skips behind the padding.
unfoldable pub skip_priority : Frame → List ℕ → Unpadded
unfolding has_flag
skip_priority f payload =
    if has_flag f.hdr Flag.priority
    then (if ltb (length payload) 5 then refused frame_size_error else content (drop 5 payload))
    else content payload

-- The header block of a HEADERS frame.
unfoldable pub header_fragment : Frame → Unpadded
unfolding unpad skip_priority
header_fragment f = elim (unpad f) [
  | refused ec ↦ refused ec
  | content payload ↦ skip_priority f payload
]
