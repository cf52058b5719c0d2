-- ===== src/Http2/Session/Receive.antt =====
-- The frames of a stream in src/http/http2_session.cpp: `handle_data`, `handle_headers`,
-- `handle_continuation`, `handle_rst_stream` and `handle_push_promise`.
use async_net.Base.{ℕ, max, List, [], ◌∷◌, ◌++◌, Bool, true, false, ◌&&◌, ◌||◌, not}
use async_net.Base.{Option, none, some, ◌==◌, if◌then◌else◌, bytes, length}
use async_net.Http.Message.{Request, new_request}
use async_net.Http2.Frame.{Frame, has_flag, build_rst_stream}
use async_net.Http2.Frame.{parse_push_promise}
use async_net.Http2.Frame.Code.{protocol_error, frame_size_error, stream_closed}
use async_net.Http2.Frame.Flag
use async_net.Http2.Hpack.Entry.{Entry}
use async_net.Http2.Session.State.{
  Session, Stream, Promise, new_promise, PushPromiseInfo, Handlers, Mode, server, client, open_,
  find_stream, put_stream, erase_stream, stream_or_new, modify_stream, enqueue, goaway,
}
use async_net.Http2.Session.Payload.{Unpadded, content, refused, unpad, header_fragment}
use async_net.Http2.Session.Flow.{update_windows}
use async_net.Http2.Session.Dispatch.{
  apply_fields, apply_headers, apply_response_headers, decode_block, dispatch_request,
  complete_promise, settle_promise,
}

-- The data to the stream's callback, or behind the body.
unfoldable pub deliver : Handlers → ℕ → Option ℕ → List ℕ → Bool → Session → Session
unfolding modify_stream
deliver h sid none input end_stream s =
    modify_stream sid (λ (ss : Stream). record ss { body = ss.body ++ input }) s
deliver h sid (some callback) input end_stream s = h.data_callback callback sid input end_stream s

abbrev pub ended : Stream → Stream
ended ss = record ss { end_stream = true }

unfoldable pub is_handled : ℕ → Session → Bool
is_handled sid s = (stream_or_new sid s.streams).streaming_handled

-- What the flag END_STREAM of a DATA frame leads to.
unfoldable pub end_data : Handlers → ℕ → Session → Session
unfolding modify_stream is_handled dispatch_request complete_promise
end_data h sid s =
    let s₁ = modify_stream sid ended s in
    elim s.mode [
      | server ↦ if is_handled sid s₁ then s₁ else dispatch_request h sid s₁
      | client ↦ complete_promise h sid s₁
    ]

unfoldable pub handle_data : Handlers → Frame → Session → Session
unfolding goaway find_stream unpad deliver update_windows end_data has_flag
handle_data h f s =
    let sid = f.hdr.stream_id in
    let end_stream = has_flag f.hdr Flag.end_stream in
    if sid == 0
    then goaway s protocol_error (bytes "DATA on stream 0")
    else elim (find_stream sid s.streams) [
      | none ↦ enqueue s (build_rst_stream sid stream_closed)
      | some ss ↦ elim (unpad f) [
        | refused ec ↦ goaway s ec []
        | content input ↦
            let s₁ =
              update_windows sid (length input) (deliver h sid ss.data_cb input end_stream s) in
            if end_stream then end_data h sid s₁ else s₁
      ]
    ]

-- A block that goes on in CONTINUATION frames.
abbrev pub pending : List ℕ → Bool → Stream → Stream
pending block end_stream ss = record ss {
  pending_header_block = block;
  end_stream = ss.end_stream || end_stream;
}

unfoldable pub await_continuation : ℕ → List ℕ → Bool → Session → Session
unfolding modify_stream
await_continuation sid block end_stream s =
    record (modify_stream sid (pending block end_stream) s) { continuation_stream = sid }

-- `if (ss.data_cb) ss.data_cb(sid, nullptr, 0, true)`
unfoldable pub signal_end : Handlers → ℕ → Stream → Session → Session
signal_end h sid ss s = elim ss.data_cb [
  | none ↦ s
  | some callback ↦ h.data_callback callback sid [] true s
]

unfoldable pub open_stream : ℕ → Session → Session
unfolding put_stream stream_or_new
open_stream sid s = record s {
  streams =
      put_stream sid (record (stream_or_new sid s.streams) { stream_id = sid; state = open_ })
        s.streams;
  last_client_stream = max s.last_client_stream sid;
}

-- The server's half of `handle_headers` behind the padding and the priority.
unfoldable pub request_headers : Handlers → ℕ → List ℕ → Bool → Bool → Session → Session
unfolding find_stream signal_end open_stream decode_block await_continuation apply_headers
request_headers h sid block end_headers end_stream s =
    let ss = stream_or_new sid s.streams in
    if ss.streaming_handled && end_stream
    then modify_stream sid ended (signal_end h sid ss s)
    else let s₁ = open_stream sid s in
      if end_headers
      then (let (headers, s₂) = decode_block s₁ block in apply_headers h sid headers end_stream s₂)
      else await_continuation sid block end_stream s₁

abbrev pub is_set {ℓ} : {A : Type ℓ} → Option A → Bool
is_set none = false
is_set (some a) = true

-- The client's half. Trailers of a streaming response are signalled first, and decoded whatever
-- the flag END_HEADERS says.
unfoldable pub reply_headers : Handlers → ℕ → List ℕ → Bool → Bool → Session → Session
unfolding find_stream signal_end decode_block await_continuation apply_response_headers
reply_headers h sid block end_headers end_stream s = elim (find_stream sid s.streams) [
  | none ↦ s
  | some ss ↦
      let trailers = ss.headers_complete && is_set ss.data_cb && end_stream in
      let s₁ = if trailers then signal_end h sid ss s else s in
      if trailers || end_headers
      then (let (headers, s₂) = decode_block s₁ block in
          apply_response_headers h sid headers end_stream s₂)
      else await_continuation sid block end_stream s₁
]

unfoldable pub side_headers : Handlers → Mode → ℕ → List ℕ → Bool → Bool → Session → Session
unfolding request_headers reply_headers
side_headers h server sid block end_headers end_stream s =
    request_headers h sid block end_headers end_stream s
side_headers h client sid block end_headers end_stream s =
    reply_headers h sid block end_headers end_stream s

unfoldable pub handle_fragment : Handlers → Frame → Session → Unpadded → Session
unfolding goaway side_headers has_flag
handle_fragment h f s (refused ec) = goaway s ec []
handle_fragment h f s (content block) =
    side_headers h s.mode f.hdr.stream_id block (has_flag f.hdr Flag.end_headers)
      (has_flag f.hdr Flag.end_stream) s

unfoldable pub handle_headers : Handlers → Frame → Session → Session
unfolding goaway header_fragment handle_fragment
handle_headers h f s =
    if f.hdr.stream_id == 0
    then goaway s protocol_error (bytes "HEADERS on stream 0")
    else handle_fragment h f s (header_fragment f)

abbrev pub set_pending : List ℕ → Stream → Stream
set_pending block ss = record ss { pending_header_block = block }

-- `apply_headers` or `apply_response_headers`, by the side.
unfoldable pub apply_block : Handlers → Mode → ℕ → List Entry → Bool → Session → Session
unfolding apply_headers apply_response_headers
apply_block h server sid headers end_stream s = apply_headers h sid headers end_stream s
apply_block h client sid headers end_stream s = apply_response_headers h sid headers end_stream s

-- A block that is complete.
unfoldable pub end_block : Handlers → ℕ → List ℕ → Bool → Session → Session
unfolding decode_block modify_stream apply_block
end_block h sid block end_stream s =
    let (headers, s₁) = decode_block (record s { continuation_stream = 0 }) block in
    apply_block h s.mode sid headers end_stream (modify_stream sid (set_pending []) s₁)

-- `handle_continuation` for the stream that the map has, if any.
unfoldable pub continue_block : Handlers → Frame → Session → Option Stream → Session
unfolding goaway end_block modify_stream has_flag
continue_block h f s none = goaway s protocol_error (bytes "CONTINUATION for unknown stream")
continue_block h f s (some ss) =
    let sid = f.hdr.stream_id in
    let block = ss.pending_header_block ++ f.payload in
    if has_flag f.hdr Flag.end_headers
    then end_block h sid block ss.end_stream s
    else modify_stream sid (set_pending block) s

unfoldable pub handle_continuation : Handlers → Frame → Session → Session
unfolding find_stream continue_block
handle_continuation h f s = continue_block h f s (find_stream f.hdr.stream_id s.streams)

unfoldable pub handle_rst_stream : Handlers → Frame → Session → Session
unfolding goaway find_stream erase_stream settle_promise
handle_rst_stream h f s =
    let sid = f.hdr.stream_id in
    let erase = λ (x : Session). record x { streams = erase_stream sid x.streams } in
    if not (length f.payload == 4)
    then goaway s frame_size_error []
    else elim (find_stream sid s.streams) [
      | none ↦ s
      | some ss ↦ elim ss.promise [
        | none ↦ erase s
        | some p ↦
            erase
              (settle_promise h p (λ (x : Promise). record x { error = true; complete = true }) s)
      ]
    ]

-- The promise of the pushed response, which the stream has from now on.
unfoldable pub promise_stream : ℕ → PushPromiseInfo → Session → Session
unfolding put_stream stream_or_new
promise_stream sid info s = record s {
  streams =
      put_stream sid
        (record (stream_or_new sid s.streams) {
          stream_id = sid;
          state = open_;
          promise = some (length s.promises);
        })
        s.streams;
  promises = s.promises ++ (record new_promise { is_push = true; push_info = info } ∷ []);
}

-- The client's half of `handle_push_promise`.
unfoldable pub receive_promise : Handlers → Frame → Session → Session
unfolding decode_block apply_fields promise_stream
receive_promise h f s =
    let pp = parse_push_promise f.payload in
    let (headers, s₁) = decode_block s pp.header_block in
    let info : PushPromiseInfo = record {
      promised_stream_id = pp.promised_stream_id;
      promised_request =
          apply_fields (λ (req : Request) path. record req { path = path }) new_request headers;
    } in
    let s₂ = promise_stream pp.promised_stream_id info s₁ in
    elim h.push_handler [ none ↦ s₂ | some handler ↦ handler info s₂ ]

unfoldable pub handle_push_promise : Handlers → Frame → Session → Session
unfolding goaway receive_promise
handle_push_promise h f s = elim s.mode [
  | server ↦ goaway s protocol_error (bytes "PUSH_PROMISE on server")
  | client ↦ receive_promise h f s
]
