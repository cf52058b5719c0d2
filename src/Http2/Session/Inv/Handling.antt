-- ===== src/Http2/Session/Inv/Handling.antt =====
-- The frames of a stream keep the invariant of `http2_session::impl`, where the handlers keep it.
use async_net.Base.{
  ℕ, ◌^◌, ◌+◌, ◌-◌, ◌<◌, ◌≤◌, List, [], ◌++◌, Bool, true, ◌&&◌, ◌||◌, ◌≡◌, refl, Bool-cases,
  Option-cases, ◌⊎◌, drop, inl, inr, if◌then◌else◌, Option, some, none, arith, length, length-take,
  length-drop, ◌==◌, bytes, at,
}
use async_net.Http2.Frame.{Frame, has_flag}
use async_net.Http2.Frame.Code.{ErrorCode, protocol_error}
use async_net.Http2.Frame.Flag
use async_net.Http2.Session.State.{
  Session, Stream, Handlers, Mode, server, client, modify_stream, find_stream, goaway,
  stream_or_new,
}
use async_net.Http2.Session.Dispatch.{
  decode_block, dispatch_request, complete_promise, apply_headers, apply_response_headers,
}
use async_net.Http2.Session.Receive.{
  deliver, is_handled, ended, end_data, handle_data, pending, await_continuation, signal_end,
  open_stream, request_headers, reply_headers, side_headers, handle_fragment, handle_headers,
  is_set,
}
use async_net.Http2.Session.Flow.{update_windows}
use async_net.Http2.Session.Payload.{Unpadded, content, refused, unpad, header_fragment}
use async_net.Http2.Session.Inv.{
  IsValid, Keeps, modify_stream-IsValid, put_stream-StreamsIn, stream_or_new-InWindow, with_streams,
}
use async_net.Http2.Session.Inv.Windows.{update_windows-IsValid}
use async_net.Http2.Session.Inv.Dispatching.{
  if-IsValid, decode_block-IsValid, dispatch_request-IsValid, complete_promise-IsValid,
  apply_headers-IsValid, apply_response_headers-IsValid,
}

pub goaway-IsValid :
    (s : Session) (ec : ErrorCode) (debug : List ℕ) → IsValid s → IsValid (goaway s ec debug)
unfolding goaway
goaway-IsValid s ec debug v = record { limits = v.limits }

-- What is left of a payload is no longer than the payload.
pub unpad-length :
    (f : Frame) (input : List ℕ) → unpad f ≡ content input → length input ≤ length f.payload
unfolding unpad
unpad-length f input e = ground (
  arith,
  length-take (length f.payload - (1 + at f.payload 0)) (drop 1 f.payload),
  length-drop 1 f.payload,
)

pub Unpadded-cases :
    (u : Unpadded)
    → ((ec : ErrorCode) × (u ≡ refused ec)) ⊎ ((input : List ℕ) × (u ≡ content input))
Unpadded-cases (content input) = inr (input, refl)
Unpadded-cases (refused ec) = inl (ec, refl)

module _ (h : Handlers) (k : Keeps IsValid h) where
  deliver-IsValid :
      (sid : ℕ) (callback : Option ℕ) (input : List ℕ) (end_stream : Bool) (s : Session)
      → IsValid s
      → IsValid (deliver h sid callback input end_stream s)
  unfolding deliver
  deliver-IsValid sid none input end_stream s v =
      modify_stream-IsValid sid (λ (ss : Stream). record ss { body = ss.body ++ input }) s
        (λ x. refl) v
  deliver-IsValid sid (some callback) input end_stream s v =
      k.on_data callback sid input end_stream s v

  end_data-IsValid : (sid : ℕ) (s : Session) → IsValid s → IsValid (end_data h sid s)
  unfolding end_data
  end_data-IsValid sid s v = by_mode s.mode
    where
      s₁ : Session
      s₁ = modify_stream sid ended s

      v₁ : IsValid s₁
      v₁ = modify_stream-IsValid sid ended s (λ x. refl) v

      by_mode :
          (m : Mode)
          → IsValid (elim m [
            | server ↦ if is_handled sid s₁ then s₁ else dispatch_request h sid s₁
            | client ↦ complete_promise h sid s₁
          ])
      by_mode server =
          if-IsValid (is_handled sid s₁) s₁ (dispatch_request h sid s₁) v₁
            (dispatch_request-IsValid h k sid s₁ v₁)
      by_mode client = complete_promise-IsValid h k sid s₁ v₁

  pub handle_data-IsValid :
      (f : Frame) (s : Session)
      → length f.payload < 2 ^ 24
      → IsValid s
      → IsValid (handle_data h f s)
  unfolding handle_data
  handle_data-IsValid f s len v =
      let sid = f.hdr.stream_id in
      let end_stream = has_flag f.hdr Flag.end_stream in
      elim (Bool-cases (sid == 0)) [
        | inl zero_sid ↦ rw (zero_sid, handle_data) (goaway-IsValid s protocol_error _ v)
        | inr nonzero ↦ elim (Option-cases (find_stream sid s.streams)) [
          | inl e ↦ rw (nonzero, handle_data) (rw e (record { limits = v.limits }))
          | inr (ss, e) ↦ elim (Unpadded-cases (unpad f)) [
            | inl (ec, u) ↦ rw (nonzero, handle_data) (rw e (rw u (goaway-IsValid s ec [] v)))
            | inr (input, u) ↦
                let s₁ = deliver h sid ss.data_cb input end_stream s in
                let v₁ = deliver-IsValid sid ss.data_cb input end_stream s v in
                let s₂ = update_windows sid (length input) s₁ in
                let short = unpad-length f input u in
                let v₂ = update_windows-IsValid sid (length input) s₁ (omega arith) v₁ in
                rw (nonzero, handle_data)
                  (rw e (
                    rw u (
                      if-IsValid end_stream (end_data h sid s₂) s₂ (end_data-IsValid sid s₂ v₂)
                        v₂)))
          ]
        ]
      ]

  signal_end-IsValid :
      (sid : ℕ) (ss : Stream) (s : Session) → IsValid s → IsValid (signal_end h sid ss s)
  unfolding signal_end
  signal_end-IsValid sid ss s v = elim (Option-cases ss.data_cb) [
    | inl e ↦ rw (e, signal_end) v
    | inr (callback, e) ↦ rw (e, signal_end) (k.on_data callback sid [] true s v)
  ]

  await_continuation-IsValid :
      (sid : ℕ) (block : List ℕ) (end_stream : Bool) (s : Session)
      → IsValid s
      → IsValid (await_continuation sid block end_stream s)
  unfolding await_continuation
  await_continuation-IsValid sid block end_stream s v =
      let w = modify_stream-IsValid sid (pending block end_stream) s (λ x. refl) v in
      record { limits = w.limits }

  request_headers-IsValid :
      (sid : ℕ) (block : List ℕ) (end_headers end_stream : Bool) (s : Session)
      → IsValid s
      → IsValid (request_headers h sid block end_headers end_stream s)
  unfolding request_headers open_stream
  request_headers-IsValid sid block end_headers end_stream s v =
      let ss = stream_or_new sid s.streams in
      let s₁ = open_stream sid s in
      let w = with_streams s₁.streams v (
        put_stream-StreamsIn sid _ s.streams (stream_or_new-InWindow sid s.streams v.each_stream)
          v.each_stream) in
      let v₁ : IsValid s₁ = record { limits = w.limits } in
      let decoded = decode_block s₁ block in
      if-IsValid (ss.streaming_handled && end_stream)
        (modify_stream sid ended (signal_end h sid ss s)) _
        (modify_stream-IsValid sid ended (signal_end h sid ss s) (λ x. refl)
          (signal_end-IsValid sid ss s v))
        (if-IsValid end_headers (apply_headers h sid decoded.0 end_stream decoded.1)
          (await_continuation sid block end_stream s₁)
          (apply_headers-IsValid h k sid decoded.0 end_stream decoded.1
            (decode_block-IsValid s₁ block v₁))
          (await_continuation-IsValid sid block end_stream s₁ v₁))

  reply_headers-IsValid :
      (sid : ℕ) (block : List ℕ) (end_headers end_stream : Bool) (s : Session)
      → IsValid s
      → IsValid (reply_headers h sid block end_headers end_stream s)
  unfolding reply_headers
  reply_headers-IsValid sid block end_headers end_stream s v =
      elim (Option-cases (find_stream sid s.streams)) [
        | inl e ↦ rw (e, reply_headers) v
        | inr (ss, e) ↦
            let trailers = ss.headers_complete && is_set ss.data_cb && end_stream in
            let s₁ = if trailers then signal_end h sid ss s else s in
            let v₁ =
              if-IsValid trailers (signal_end h sid ss s) s (signal_end-IsValid sid ss s v) v in
            let decoded = decode_block s₁ block in
            rw (e, reply_headers)
              (if-IsValid (trailers || end_headers)
                (apply_response_headers h sid decoded.0 end_stream decoded.1)
                (await_continuation sid block end_stream s₁)
                (apply_response_headers-IsValid h k sid decoded.0 end_stream decoded.1
                  (decode_block-IsValid s₁ block v₁))
                (await_continuation-IsValid sid block end_stream s₁ v₁))
      ]

  handle_fragment-IsValid :
      (f : Frame) (s : Session) (u : Unpadded) → IsValid s → IsValid (handle_fragment h f s u)
  unfolding handle_fragment side_headers
  handle_fragment-IsValid f s (refused ec) v = goaway-IsValid s ec [] v
  handle_fragment-IsValid f s (content block) v = by_mode s.mode
    where
      by_mode :
          (m : Mode)
          → IsValid (
              side_headers h m f.hdr.stream_id block
                (has_flag f.hdr Flag.end_headers)
                (has_flag f.hdr Flag.end_stream)
                s)
      by_mode server = request_headers-IsValid f.hdr.stream_id block _ _ s v
      by_mode client = reply_headers-IsValid f.hdr.stream_id block _ _ s v

  pub handle_headers-IsValid :
      (f : Frame) (s : Session) → IsValid s → IsValid (handle_headers h f s)
  unfolding handle_headers
  handle_headers-IsValid f s v =
      let misplaced = bytes "HEADERS on stream 0" in
      if-IsValid (f.hdr.stream_id == 0) (goaway s protocol_error misplaced)
        (handle_fragment h f s (header_fragment f)) (goaway-IsValid s protocol_error misplaced v)
        (handle_fragment-IsValid f s (header_fragment f) v)
