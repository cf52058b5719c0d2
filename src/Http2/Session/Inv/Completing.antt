-- ===== src/Http2/Session/Inv/Completing.antt =====
-- RST_STREAM, PUSH_PROMISE and CONTINUATION frames keep the invariant of `http2_session::impl`, where
-- the handlers keep it.
use async_net.Base.{
  ℕ, List, [], ◌++◌, Bool, true, refl, Bool-cases, Option-cases, inl, inr, Option, some, none,
  length, ◌==◌, bytes,
}
use async_net.Http.Message.{Request, new_request}
use async_net.Http2.Hpack.Entry.{Entry}
use async_net.Http2.Frame.{Frame, has_flag, parse_push_promise}
use async_net.Http2.Frame.Code.{protocol_error, frame_size_error}
use async_net.Http2.Frame.Flag
use async_net.Http2.Session.State.{
  Session, Stream, Promise, Handlers, PushPromiseInfo, Mode, server, client, modify_stream,
  find_stream, erase_stream, goaway,
}
use async_net.Http2.Session.Dispatch.{apply_fields, decode_block, settle_promise}
use async_net.Http2.Session.Receive.{
  handle_continuation, handle_rst_stream, promise_stream, handle_push_promise, receive_promise,
  apply_block, end_block, continue_block, set_pending,
}
use async_net.Http2.Session.Inv.{
  IsValid, Keeps, modify_stream-IsValid, put_stream-StreamsIn, erase_stream-StreamsIn,
  stream_or_new-InWindow, with_streams,
}
use async_net.Http2.Session.Inv.Dispatching.{
  if-IsValid, decode_block-IsValid, settle_promise-IsValid, apply_headers-IsValid,
  apply_response_headers-IsValid,
}
use async_net.Http2.Session.Inv.Handling.{goaway-IsValid}

module _ (h : Handlers) (k : Keeps IsValid h) where
  pub handle_rst_stream-IsValid :
      (f : Frame) (s : Session) → IsValid s → IsValid (handle_rst_stream h f s)
  unfolding handle_rst_stream
  handle_rst_stream-IsValid f s v =
      let sid = f.hdr.stream_id in
      elim (Bool-cases (length f.payload == 4)) [
        | inr bad ↦ rw (bad, handle_rst_stream) (goaway-IsValid s frame_size_error [] v)
        | inl four ↦ elim (Option-cases (find_stream sid s.streams)) [
          | inl e ↦ rw (four, handle_rst_stream) (rw e v)
          | inr (ss, e) ↦ elim (Option-cases ss.promise) [
            | inl n ↦ rw (four, handle_rst_stream) (rw e (rw n (erased sid s v)))
            | inr (p, n) ↦
                let change = λ (x : Promise). record x { error = true; complete = true } in
                rw (four, handle_rst_stream)
                  (rw e (
                    rw n (
                      erased sid (settle_promise h p change s)
                        (settle_promise-IsValid h k p change s v))))
          ]
        ]
      ]
    where
      erased :
          (sid : ℕ) (t : Session)
          → IsValid t
          → IsValid (record t { streams = erase_stream sid t.streams })
      erased sid t w = with_streams _ w (erase_stream-StreamsIn sid t.streams w.each_stream)

  receive_promise-IsValid : (f : Frame) (s : Session) → IsValid s → IsValid (receive_promise h f s)
  unfolding receive_promise promise_stream
  receive_promise-IsValid f s v =
      let pp = parse_push_promise f.payload in
      let decoded = decode_block s pp.header_block in
      let v₁ = decode_block-IsValid s pp.header_block v in
      let info : PushPromiseInfo = record {
        promised_stream_id = pp.promised_stream_id;
        promised_request =
            apply_fields (λ (req : Request) path. record req { path = path }) new_request decoded.0;
      } in
      let s₂ = promise_stream pp.promised_stream_id info decoded.1 in
      let w = with_streams s₂.streams v₁ (
        put_stream-StreamsIn pp.promised_stream_id _ decoded.1.streams
          (stream_or_new-InWindow pp.promised_stream_id decoded.1.streams v₁.each_stream)
          v₁.each_stream) in
      let v₂ : IsValid s₂ = record { limits = w.limits } in
      elim (Option-cases h.push_handler) [
        | inl e ↦ rw (e, receive_promise) v₂
        | inr (handler, e) ↦ rw (e, receive_promise) (k.push handler e info s₂ v₂)
      ]

  pub handle_push_promise-IsValid :
      (f : Frame) (s : Session) → IsValid s → IsValid (handle_push_promise h f s)
  unfolding handle_push_promise
  handle_push_promise-IsValid f s v = by_mode s.mode
    where
      by_mode :
          (m : Mode)
          → IsValid (elim m [
            | server ↦ goaway s protocol_error (bytes "PUSH_PROMISE on server")
            | client ↦ receive_promise h f s
          ])
      by_mode server = goaway-IsValid s protocol_error _ v
      by_mode client = receive_promise-IsValid f s v

  apply_block-IsValid :
      (m : Mode) (sid : ℕ) (headers : List Entry) (end_stream : Bool) (s : Session)
      → IsValid s
      → IsValid (apply_block h m sid headers end_stream s)
  unfolding apply_block
  apply_block-IsValid server sid headers end_stream s v =
      apply_headers-IsValid h k sid headers end_stream s v
  apply_block-IsValid client sid headers end_stream s v =
      apply_response_headers-IsValid h k sid headers end_stream s v

  end_block-IsValid :
      (sid : ℕ) (block : List ℕ) (end_stream : Bool) (s : Session)
      → IsValid s
      → IsValid (end_block h sid block end_stream s)
  unfolding end_block
  end_block-IsValid sid block end_stream s v =
      let s₀ = record s { continuation_stream = 0 } in
      let decoded = decode_block s₀ block in
      let v₁ = decode_block-IsValid s₀ block (record { limits = v.limits }) in
      apply_block-IsValid s.mode sid decoded.0 end_stream
        (modify_stream sid (set_pending []) decoded.1)
        (modify_stream-IsValid sid (set_pending []) decoded.1 (λ x. refl) v₁)

  continue_block-IsValid :
      (f : Frame) (s : Session) (found : Option Stream)
      → IsValid s
      → IsValid (continue_block h f s found)
  unfolding continue_block
  continue_block-IsValid f s none v = goaway-IsValid s protocol_error _ v
  continue_block-IsValid f s (some ss) v =
      let sid = f.hdr.stream_id in
      let block = ss.pending_header_block ++ f.payload in
      if-IsValid (has_flag f.hdr Flag.end_headers) (end_block h sid block ss.end_stream s)
        (modify_stream sid (set_pending block) s) (end_block-IsValid sid block ss.end_stream s v)
        (modify_stream-IsValid sid (set_pending block) s (λ x. refl) v)

  pub handle_continuation-IsValid :
      (f : Frame) (s : Session) → IsValid s → IsValid (handle_continuation h f s)
  unfolding handle_continuation
  handle_continuation-IsValid f s v = continue_block-IsValid f s _ v
