-- ===== src/Http2/Session/Feed.antt =====
-- `feed` and `process_frame` of src/http/http2_session.cpp, and what the application sets or takes.
use async_net.Base.{ℕ, zero, suc, ◌+◌, List, [], ◌∷◌, Bool, true, false, ◌&&◌, ◌||◌, not, some}
use async_net.Base.{◌==◌, if◌then◌else◌, bytes, length, drop, ℤ, pos, negsuc}
use async_net.Http2.Frame.{Frame}
use async_net.Http2.Frame.Code.{FrameType, protocol_error, data_frame, headers}
use async_net.Http2.Frame.Code.{priority, rst_stream, settings, push_promise, ping, continuation}
use async_net.Http2.Reader
use async_net.Http2.Session.State.{Session, Stream, Handlers, server, client, goaway, modify_stream}
use async_net.Http2.Session.Receive.{
  handle_data, handle_headers, handle_continuation, handle_rst_stream, handle_push_promise,
}
use async_net.Http2.Session.Settings.{
  handle_settings, handle_ping, handle_window_update, handle_goaway,
}

abbrev pub is_continuation : FrameType → Bool
is_continuation continuation = true
is_continuation _ = false

-- The `switch` of `process_frame`, by the type of the frame.
unfoldable pub dispatch_frame : Handlers → FrameType → Frame → Session → Session
dispatch_frame h data_frame f s = handle_data h f s
dispatch_frame h headers f s = handle_headers h f s
dispatch_frame h priority f s = s
dispatch_frame h rst_stream f s = handle_rst_stream h f s
dispatch_frame h settings f s = handle_settings f s
dispatch_frame h push_promise f s = handle_push_promise h f s
dispatch_frame h ping f s = handle_ping f s
dispatch_frame h FrameType.goaway f s = handle_goaway f s
dispatch_frame h FrameType.window_update f s = handle_window_update f s
dispatch_frame h continuation f s = goaway s protocol_error (bytes "Unexpected CONTINUATION")
dispatch_frame h (FrameType.other n) f s = s

unfoldable pub process_frame : Handlers → Frame → Session → Session
unfolding dispatch_frame handle_continuation goaway
process_frame h f s =
    if s.continuation_stream == 0
    then dispatch_frame h f.hdr.type f s
    else if not (is_continuation f.hdr.type) || not (f.hdr.stream_id == s.continuation_stream)
    then goaway s protocol_error (bytes "Expected CONTINUATION")
    else handle_continuation h f s

-- One frame that the reader has, and its processing.
unfoldable pub process_next : Handlers → Session → Session
process_next h s =
    let (f, reader) = Reader.take_frame s.reader in process_frame h f (record s { reader = reader })

-- `while (reader_.has_frame())`, on fuel. A reader whose frame has been taken has no other, so
-- there is one round, and the second ends by its test.
unfoldable pub drain : ℕ → Handlers → Session → Session
drain zero h s = s
drain (suc fuel) h s = elim (Reader.has_frame s.reader) [
  | false ↦ s
  | true ↦ let s' = process_next h s in elim s'.alive [ true ↦ drain fuel h s' | false ↦ s' ]
]

-- The loop of `feed`, on fuel; `input` is what is left of the data.
unfoldable pub feed_loop : ℕ → Handlers → List ℕ → ℕ → Session → Session × ℕ
unfolding drain
feed_loop zero h input total s = (s, total)
feed_loop (suc fuel) h [] total s = (s, total)
feed_loop (suc fuel) h (b ∷ bs) total s = elim s.alive [
  | false ↦ (s, total)
  | true ↦
      let (reader, consumed) = Reader.feed s.reader (b ∷ bs) in
      let s' = drain 2 h (record s { reader = reader }) in
      elim (consumed == 0 && not (Reader.has_frame s'.reader)) [
        | true ↦ (s', total + consumed)
        | false ↦ feed_loop fuel h (drop consumed (b ∷ bs)) (total + consumed) s'
      ]
]

-- A server takes note of the first bytes; the frame reader is to find the preface consumed.
abbrev pub note_preface : Session → Session
note_preface s = record s {
  preface_received = elim s.mode [ server ↦ true | client ↦ s.preface_received ];
}

-- The session, and the number of bytes consumed or -1. A round consumes a byte at least.
unfoldable pub feed : Handlers → List ℕ → Session → Session × ℤ
unfolding feed_loop
feed h input s =
    if not s.alive
    then (s, negsuc 0)
    else let (s', total) = feed_loop (length input) h input 0 (note_preface s) in (s', pos total)

unfoldable pub set_data_callback : ℕ → ℕ → Session → Session
unfolding modify_stream
set_data_callback sid callback s =
    modify_stream sid (λ (ss : Stream). record ss { data_cb = some callback }) s

unfoldable pub take_completed_promises : Session → List ℕ × Session
take_completed_promises s = (s.completed_promises, record s { completed_promises = [] })
