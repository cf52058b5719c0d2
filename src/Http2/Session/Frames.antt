-- ===== src/Http2/Session/Frames.antt =====
-- `build_headers_frame` and `build_data_frames` of src/http/http2_session.cpp: a header block and a
-- body in frames of at most `peer_max_frame_size_` bytes.
use async_net.Base.{ℕ, zero, suc, List, [], ◌∷◌, ◌++◌, Bool, ◌&&◌, not, bit_or, is_empty}
use async_net.Base.{leb, if◌then◌else◌, length, take, drop}
use async_net.Http2.Frame.{build_frame}
use async_net.Http2.Frame.Code.{data_frame, headers, continuation}
use async_net.Http2.Frame.Flag
use async_net.Http2.Hpack.Entry.{Entry}
use async_net.Http2.Hpack.Codec
use async_net.Http2.Session.State.{Session}

-- The loop for the CONTINUATION frames, on fuel; `rest` is the block from `offset` on. A round
-- takes a byte at least, as the largest frame has 16384 bytes or more.
unfoldable pub continuation_frames : ℕ → ℕ → ℕ → List ℕ → List ℕ
unfolding build_frame
continuation_frames zero max_size sid rest = []
continuation_frames (suc fuel) max_size sid [] = []
continuation_frames (suc fuel) max_size sid (b ∷ bs) =
    let chunk = take max_size (b ∷ bs) in
    let behind = drop max_size (b ∷ bs) in
    let cont_flags = if is_empty behind then Flag.end_headers else 0 in
    build_frame continuation cont_flags sid chunk ++ continuation_frames fuel max_size sid behind

-- The frames for a block that is encoded already.
unfoldable pub block_frames : ℕ → ℕ → ℕ → List ℕ → List ℕ
unfolding continuation_frames
block_frames max_size sid flags block =
    if leb (length block) max_size
    then build_frame headers (bit_or flags Flag.end_headers) sid block
    else build_frame headers flags sid (take max_size block)
      ++ continuation_frames (length block) max_size sid (drop max_size block)

unfoldable pub build_headers_frame : Session → ℕ → ℕ → List Entry → List ℕ × Session
unfolding block_frames
build_headers_frame s sid flags hdrs =
    let (block, encoder) = Codec.encode s.encoder hdrs in
    (block_frames s.peer_max_frame_size sid flags block, record s { encoder = encoder })

-- The loop of `build_data_frames`, on fuel; `rest` is the body from `offset` on.
unfoldable pub data_loop : ℕ → ℕ → ℕ → Bool → List ℕ → List ℕ
unfolding build_frame
data_loop zero max_size sid no_end_stream rest = []
data_loop (suc fuel) max_size sid no_end_stream [] = []
data_loop (suc fuel) max_size sid no_end_stream (b ∷ bs) =
    let chunk = take max_size (b ∷ bs) in
    let behind = drop max_size (b ∷ bs) in
    let flags = if not no_end_stream && is_empty behind then Flag.end_stream else 0 in
    build_frame data_frame flags sid chunk ++ data_loop fuel max_size sid no_end_stream behind

unfoldable pub build_data_frames : ℕ → ℕ → List ℕ → Bool → List ℕ
unfolding data_loop
build_data_frames max_size sid body no_end_stream =
    data_loop (length body) max_size sid no_end_stream body
    ++ (if is_empty body && not no_end_stream
        then build_frame data_frame Flag.end_stream sid []
        else [])
