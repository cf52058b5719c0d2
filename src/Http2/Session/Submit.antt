-- ===== src/Http2/Session/Submit.antt =====
-- What the application sends through src/http/http2_session.cpp: `do_submit_response`,
-- `do_submit_response_headers`, `do_submit_data`, `do_submit_trailers`, `do_submit_request` and
-- `do_submit_push`.
use async_net.Base.{leb, ◌^◌}
use async_net.Base.{ℕ, ◌+◌, List, [], ◌∷◌, ◌++◌, Bool, false, ◌||◌, not, Option, none, some}
use async_net.Base.{if◌then◌else◌, bytes, bytes_eq, is_empty, length, ℤ, pos, negsuc}
use async_net.Http.Text.{to_lower, decimal, decimal_int}
use async_net.Http.Method.{method_name}
use async_net.Http.Headers.{Headers}
use async_net.Http.Headers
use async_net.Http.Message.{Request, Response}
use async_net.Http2.Frame.{build_frame, build_push_promise}
use async_net.Http2.Frame.Code.{data_frame}
use async_net.Http2.Frame.Flag
use async_net.Http2.Hpack.Entry.{Entry, entry}
use async_net.Http2.Hpack.Codec
use async_net.Http2.Session.State.{
  Session, Stream, open_, half_closed_local, closed, stream_or_new, put_stream, modify_stream,
  enqueue,
}
use async_net.Http2.Session.Frames.{build_headers_frame, data_loop, build_data_frames}

-- The fields of a message in lower case, less those that the test leaves out.
unfoldable pub lowered : (List ℕ → Bool) → Headers → List Entry
lowered left_out [] = []
lowered left_out (e ∷ es) =
    let name = to_lower e.name in
    if left_out name then lowered left_out es else entry name e.value ∷ lowered left_out es

-- The fields that a response sends otherwise, or not at all.
unfoldable pub response_left_out : List ℕ → Bool
unfolding bytes_eq
response_left_out name =
    bytes_eq name (bytes "content-type")
    || bytes_eq name (bytes "content-length")
    || bytes_eq name (bytes "connection")
    || bytes_eq name (bytes "transfer-encoding")

unfoldable pub request_left_out : List ℕ → Bool
unfolding bytes_eq
request_left_out name = bytes_eq name (bytes "host") || bytes_eq name (bytes "connection")

abbrev pub keep_all : List ℕ → Bool
keep_all name = false

abbrev pub optional_field : List ℕ → Option (List ℕ) → List Entry
optional_field name none = []
optional_field name (some value) = entry name value ∷ []

-- The status and the type of the content.
unfoldable pub status_fields : Response → List Entry
status_fields resp =
    entry (bytes ":status") (decimal_int resp.status)
    ∷ optional_field (bytes "content-type") (Headers.get resp.hdrs (bytes "Content-Type"))

unfoldable pub response_fields : Response → List Entry
unfolding status_fields lowered response_left_out
response_fields resp =
    status_fields resp
    ++ ((if is_empty resp.bd
          then []
          else entry (bytes "content-length") (decimal (length resp.bd)) ∷ [])
        ++ lowered response_left_out resp.hdrs)

-- A HEADERS frame, and its CONTINUATION frames, in the output.
unfoldable pub send_headers : ℕ → ℕ → List Entry → Session → Session
unfolding build_headers_frame
send_headers sid flags hdrs s =
    let (frames, s') = build_headers_frame s sid flags hdrs in enqueue s' frames

abbrev pub close : Stream → Stream
close ss = record ss { state = closed }

unfoldable pub submit_trailers : Session → ℕ → Headers → Session
unfolding send_headers lowered modify_stream
submit_trailers s sid trailers =
    modify_stream sid close (send_headers sid Flag.end_stream (lowered keep_all trailers) s)

-- The DATA frames of a body that is not empty.
unfoldable pub send_body : ℕ → List ℕ → Bool → Session → Session
unfolding build_data_frames
send_body sid body no_end_stream s =
    if is_empty body
    then s
    else enqueue s (build_data_frames s.peer_max_frame_size sid body no_end_stream)

unfoldable pub send_trailers : ℕ → Headers → Session → Session
unfolding send_headers lowered
send_trailers sid trailers s =
    if is_empty trailers then s else send_headers sid Flag.end_stream (lowered keep_all trailers) s

unfoldable pub submit_response : Session → ℕ → Response → Session
unfolding response_fields send_headers modify_stream send_body send_trailers
submit_response s sid resp =
    let has_body = not (is_empty resp.bd) in
    let has_trailers = not (is_empty resp.trailers) in
    let flags = if has_body || has_trailers then 0 else Flag.end_stream in
    let s₁ = send_headers sid flags (response_fields resp) s in
    modify_stream sid close
      (send_trailers sid resp.trailers (send_body sid resp.bd has_trailers s₁))

unfoldable pub submit_response_headers : Session → ℕ → Response → Session
unfolding status_fields send_headers lowered response_left_out
submit_response_headers s sid resp =
    send_headers sid 0 (status_fields resp ++ lowered response_left_out resp.hdrs) s

-- The frames of `do_submit_data`, whose loop is that of `build_data_frames`.
unfoldable pub submitted_frames : ℕ → ℕ → List ℕ → Bool → List ℕ
unfolding data_loop
submitted_frames max_size sid input end_stream =
    if is_empty input
    then build_frame data_frame (if end_stream then Flag.end_stream else 0) sid []
    else data_loop (length input) max_size sid (not end_stream) input

unfoldable pub submit_data : Session → ℕ → List ℕ → Bool → Session
unfolding submitted_frames modify_stream
submit_data s sid input end_stream =
    let s' = enqueue s (submitted_frames s.peer_max_frame_size sid input end_stream) in
    if end_stream then modify_stream sid close s' else s'

abbrev pub or_else : Option (List ℕ) → List ℕ → List ℕ
or_else none d = d
or_else (some v) d = v

unfoldable pub request_fields : Request → List Entry
unfolding method_name lowered request_left_out
request_fields req =
    entry (bytes ":method") (method_name req.method)
    ∷ entry (bytes ":path") (if is_empty req.path then b'/' ∷ [] else req.path)
    ∷ entry (bytes ":scheme") (bytes "https")
    ∷ entry (bytes ":authority") (or_else (Headers.get req.hdrs (bytes "Host")) (bytes "localhost"))
    ∷ lowered request_left_out req.hdrs

-- A stream of the application's, in the map.
unfoldable pub place_stream : ℕ → (Stream → Stream) → Session → Session
unfolding stream_or_new put_stream
place_stream sid change s = record s {
  streams = put_stream sid (change (stream_or_new sid s.streams)) s.streams;
}

abbrev pub requested : ℕ → Option ℕ → Stream → Stream
requested sid promise ss = record ss { stream_id = sid; state = open_; promise = promise }

-- The sum of stream ids is that of an `int32_t`.
abbrev pub overflows : ℕ → Bool
overflows stream_id = leb (2 ^ 31) stream_id

-- The stream id, and the session behind the call.
unfoldable pub submit_request : Session → Request → Option ℕ → Bool → ℕ × Session
unfolding place_stream send_headers request_fields send_body
submit_request s req promise no_end_stream =
    let sid = s.next_stream_id in
    let s₁ = record (place_stream sid (requested sid promise) s) {
      next_stream_id = sid + 2;
      undefined = s.undefined || overflows (sid + 2);
    } in
    let has_body = not (is_empty req.bd) in
    let flags = if has_body || no_end_stream then 0 else Flag.end_stream in
    (sid, send_body sid req.bd false (send_headers sid flags (request_fields req) s₁))

abbrev pub promised : ℕ → Stream → Stream
promised sid ss = record ss { stream_id = sid; state = half_closed_local }

-- The PUSH_PROMISE frame of `do_submit_push`.
unfoldable pub send_promise : ℕ → ℕ → List Entry → Session → Session
send_promise parent_sid sid hdrs s =
    let (block, encoder) = Codec.encode s.encoder hdrs in
    record s {
      encoder = encoder;
      output_buf = s.output_buf ++ build_push_promise parent_sid sid block;
    }

-- The promised stream id, or -1 where the client wants no push.
unfoldable pub submit_push : Session → ℕ → Request → Response → ℤ × Session
unfolding place_stream request_fields submit_response send_promise
submit_push s parent_sid promised_req push_resp =
    if not s.peer_enable_push
    then (negsuc 0, s)
    else let sid = s.next_push_stream_id in
      let s₁ = record (send_promise parent_sid sid (request_fields promised_req) s) {
        next_push_stream_id = sid + 2;
        undefined = s.undefined || overflows (sid + 2);
      } in
      (pos sid, submit_response (place_stream sid (promised sid) s₁) sid push_resp)
