-- ===== src/Http2/Session/Fragments/Reassembly.antt =====
-- A server that receives the fragments of a header block, in src/http/http2_session.cpp.
use async_net.Base.{
  ℕ, ◌<◌, List, [], Bool, true, false, none, ◌≡◌, ◌≢◌, refl, ap, ap₂, ◌∙◌, sym, arith, ◌==◌, ◌||◌,
}
use async_net.Base.{
  bit_or, if◌then◌else◌, leb, length, take, drop, Bool-cases, inl, inr, take-append-drop,
  length-drop, max,
}
use async_net.Http2.Frame.{has_flag}
use async_net.Http2.Frame.Code.{headers}
use async_net.Http2.Frame.Flag
use async_net.Http2.Session.State.{
  Session, Stream, Streams, Handlers, find_stream, put_stream, server, stream_or_new, new_stream,
  open_,
}
use async_net.Http2.Session.Dispatch.{decode_block, set_request, apply_headers, start_request}
use async_net.Http2.Session.Receive.{
  set_pending, apply_block, pending, await_continuation, open_stream, request_headers, side_headers,
  handle_fragment, handle_headers,
}
use async_net.Http2.Session.Payload.{header_fragment, unpad, content, skip_priority}
use async_net.Http2.Session.Feed.{process_frame, dispatch_frame}
use async_net.Http2.Session.Fragments.{made, continuations, fragments, process_all}
use async_net.Http2.Session.Fragments.Gathering.{
  waiting, gathered, modify_stream-put_stream, process_all-continuations,
}

-- The stream that a first HEADERS frame opens, and the session that knows of it.
opened : ℕ → Bool → Stream
opened sid end_stream = record new_stream {
  stream_id = sid;
  state = open_;
  end_stream = end_stream;
}

noted : ℕ → Session → Session
noted sid s = record s { last_client_stream = max s.last_client_stream sid }

abbrev pub end_flag : Bool → ℕ
end_flag end_stream = if end_stream then Flag.end_stream else 0

-- A HEADERS frame with no other flag than these two goes to the server's handler with its payload.
process_frame-headers :
    (h : Handlers) (flags sid : ℕ) (block : List ℕ) (s : Session)
    → s.mode ≡ server
    → s.continuation_stream ≡ 0
    → sid ≢ 0
    → header_fragment (made headers flags sid block) ≡ content block
    → process_frame h (made headers flags sid block) s
      ≡ request_headers h sid block
          (has_flag (made headers flags sid block).hdr Flag.end_headers)
          (has_flag (made headers flags sid block).hdr Flag.end_stream)
          s
unfolding process_frame dispatch_frame handle_headers handle_fragment side_headers
process_frame-headers h flags sid block s side idle ne plain =
    let f = made headers flags sid block in
    let none_awaited : (s.continuation_stream == 0) ≡ true = ground arith in
    let nonzero : (sid == 0) ≡ false = ground arith in
    rw none_awaited (
      rw nonzero (
        ap (handle_fragment h f s) plain
        ∙ ap
            (λ m.
              side_headers h m sid block (has_flag f.hdr Flag.end_headers)
                (has_flag f.hdr Flag.end_stream) s)
            side))

stream_or_new-none :
    (sid : ℕ) (m : Streams) → find_stream sid m ≡ none → stream_or_new sid m ≡ new_stream
unfolding stream_or_new
stream_or_new-none sid m e = rw (e, stream_or_new) refl

request_headers-first :
    (h : Handlers) (sid : ℕ) (chunk : List ℕ) (end_stream : Bool) (s : Session)
    → find_stream sid s.streams ≡ none
    → request_headers h sid chunk false end_stream s
      ≡ waiting sid (noted sid s) s.streams (opened sid end_stream) chunk
unfolding request_headers open_stream await_continuation waiting noted opened
request_headers-first h sid chunk end_stream s fresh = rw (stream_or_new-none sid s.streams fresh) (
    ap (λ (t : Session). record t { continuation_stream = sid })
      (modify_stream-put_stream sid (pending chunk end_stream) _ _ s.streams refl))

or_self : (b : Bool) → (b || b) ≡ b
or_self true = refl
or_self false = refl

-- The block is whole, in one frame or gathered.
request_headers-whole :
    (h : Handlers) (sid : ℕ) (block : List ℕ) (end_stream : Bool) (s : Session)
    → s.mode ≡ server
    → s.continuation_stream ≡ 0
    → find_stream sid s.streams ≡ none
    → request_headers h sid block true end_stream s
      ≡ gathered h sid (noted sid s) s.streams (opened sid end_stream) block
unfolding request_headers open_stream gathered noted opened apply_headers apply_block decode_block
request_headers-whole h sid block end_stream s side idle fresh =
    let m = s.streams in
    let decoded = decode_block s block in
    let d = record decoded.1 { last_client_stream = max s.last_client_stream sid } in
    let new = opened sid false in
    let placed = λ (b : Bool) (c : ℕ). record d {
      streams = put_stream sid (record (set_request decoded.0 end_stream new) { end_stream = b }) m;
      continuation_stream = c;
    } in
    let start = start_request h sid end_stream in
    rw (stream_or_new-none sid m fresh) (
      ap start (
        modify_stream-put_stream sid (set_request decoded.0 end_stream)
          (record d { streams = put_stream sid new m }) new m refl)
      ∙ ap₂ (λ b c. start (placed b c)) (sym (or_self end_stream)) idle
      ∙ sym (
          ap start (
            modify_stream-put_stream sid (set_request decoded.0 end_stream)
              (record d {
                streams = put_stream sid (set_pending [] (opened sid end_stream)) m;
                continuation_stream = 0;
              })
              (set_pending [] (opened sid end_stream)) m refl))
      ∙ sym (
          ap
            (λ side. apply_block h side sid decoded.0 end_stream (record d {
              streams = put_stream sid (set_pending [] (opened sid end_stream)) m;
              continuation_stream = 0;
            }))
            side))

-- The first of several frames.
head_frame :
    (h : Handlers) (sid : ℕ) (end_stream : Bool) (chunk : List ℕ) (s : Session)
    → s.mode ≡ server
    → s.continuation_stream ≡ 0
    → sid ≢ 0
    → find_stream sid s.streams ≡ none
    → process_frame h (made headers (end_flag end_stream) sid chunk) s
      ≡ waiting sid (noted sid s) s.streams (opened sid end_stream) chunk
unfolding header_fragment unpad skip_priority has_flag
head_frame h sid true chunk s side idle ne fresh =
    process_frame-headers h Flag.end_stream sid chunk s side idle ne refl
    ∙ request_headers-first h sid chunk true s fresh
head_frame h sid false chunk s side idle ne fresh =
    process_frame-headers h 0 sid chunk s side idle ne refl
    ∙ request_headers-first h sid chunk false s fresh

-- The only frame.
whole_frame :
    (h : Handlers) (sid : ℕ) (end_stream : Bool) (block : List ℕ) (s : Session)
    → s.mode ≡ server
    → s.continuation_stream ≡ 0
    → sid ≢ 0
    → find_stream sid s.streams ≡ none
    → process_frame h (made headers (bit_or (end_flag end_stream) Flag.end_headers) sid block) s
      ≡ gathered h sid (noted sid s) s.streams (opened sid end_stream) block
unfolding header_fragment unpad skip_priority has_flag
whole_frame h sid true block s side idle ne fresh =
    process_frame-headers h (bit_or Flag.end_stream Flag.end_headers) sid block s side idle ne refl
    ∙ request_headers-whole h sid block true s side idle fresh
whole_frame h sid false block s side idle ne fresh =
    process_frame-headers h (bit_or 0 Flag.end_headers) sid block s side idle ne refl
    ∙ request_headers-whole h sid block false s side idle fresh

-- A server that receives a request on a new stream, other than 0, while no header block is unfinished,
-- does with the fragments of the header block, at whatever size of frames it was cut, just what it
-- does with the block in a single HEADERS frame.
pub process_all-fragments :
    (h : Handlers) (max_size sid : ℕ) (end_stream : Bool) (block : List ℕ) (s : Session)
    → s.mode ≡ server
    → s.continuation_stream ≡ 0
    → sid ≢ 0
    → find_stream sid s.streams ≡ none
    → 0 < max_size
    → process_all h (fragments max_size sid (end_flag end_stream) block) s
      ≡ process_frame h (made headers (bit_or (end_flag end_stream) Flag.end_headers) sid block) s
unfolding fragments process_all
process_all-fragments h max_size sid end_stream block s side idle ne fresh positive =
    elim (Bool-cases (leb (length block) max_size)) [
      | inl fits ↦ rw fits refl
      | inr long ↦
          let chunk = take max_size block in
          let rest = drop max_size block in
          rw long (
            ap (process_all h (continuations (length block) max_size sid rest))
              (head_frame h sid end_stream chunk s side idle ne fresh)
            ∙ process_all-continuations h (length block) max_size sid (noted sid s) s.streams
                (opened sid end_stream) chunk rest ne positive
                (omega (arith, length-drop max_size block))
                (ground (arith, length-drop max_size block))
            ∙ ap (gathered h sid (noted sid s) s.streams (opened sid end_stream))
                (take-append-drop max_size block)
            ∙ sym (whole_frame h sid end_stream block s side idle ne fresh))
    ]
