-- ===== src/Http2/Session/Inv/Feeding.antt =====
-- Every frame and every chunk of bytes keeps the invariant of `http2_session::impl`.
use async_net.Base.{
  ℕ, zero, suc, ◌^◌, ◌+◌, ◌<◌, List, [], ◌∷◌, Bool, true, false, ◌&&◌, ◌||◌, not, ◌≡◌, Bool-cases,
  inl, inr, if◌then◌else◌, arith, length, ◌==◌, bytes, All, IsByte, All-drop, drop, ℤ, pos, negsuc,
}
use async_net.Http2.Frame.{Frame}
use async_net.Http2.Frame.Code.{
  FrameType, data_frame, headers, priority, rst_stream, settings, push_promise, ping, continuation,
  protocol_error,
}
use async_net.Http2.Reader
use async_net.Http2.Reader.{Reader}
use async_net.Http2.Reader.Inv.{take_frame-IsValid}
use async_net.Http2.Session.State.{Session, Handlers, goaway}
use async_net.Http2.Session.Settings.{handle_goaway}
use async_net.Http2.Session.Receive.{handle_continuation}
use async_net.Http2.Session.Feed.{
  dispatch_frame, process_frame, process_next, drain, feed_loop, feed, is_continuation,
  note_preface,
}
use async_net.Http2.Session.Inv.{IsValid, Keeps}
use async_net.Http2.Session.Inv.Dispatching.{if-IsValid}
use async_net.Http2.Session.Inv.Handling.{
  goaway-IsValid, handle_data-IsValid, handle_headers-IsValid,
}
use async_net.Http2.Session.Inv.Completing.{
  handle_rst_stream-IsValid, handle_push_promise-IsValid, handle_continuation-IsValid,
}
use async_net.Http2.Session.Inv.Connection.{
  handle_settings-IsValid, handle_ping-IsValid, handle_window_update-IsValid,
}

module _ (h : Handlers) (k : Keeps IsValid h) where
  dispatch_frame-IsValid :
      (type : FrameType) (f : Frame) (s : Session)
      → length f.payload < 2 ^ 24
      → IsValid s
      → IsValid (dispatch_frame h type f s)
  unfolding dispatch_frame handle_goaway
  dispatch_frame-IsValid data_frame f s len v = handle_data-IsValid h k f s len v
  dispatch_frame-IsValid headers f s len v = handle_headers-IsValid h k f s v
  dispatch_frame-IsValid priority f s len v = v
  dispatch_frame-IsValid rst_stream f s len v = handle_rst_stream-IsValid h k f s v
  dispatch_frame-IsValid settings f s len v = handle_settings-IsValid f s v
  dispatch_frame-IsValid push_promise f s len v = handle_push_promise-IsValid h k f s v
  dispatch_frame-IsValid ping f s len v = handle_ping-IsValid f s v
  dispatch_frame-IsValid FrameType.goaway f s len v = record { limits = v.limits }
  dispatch_frame-IsValid FrameType.window_update f s len v = handle_window_update-IsValid f s v
  dispatch_frame-IsValid continuation f s len v = goaway-IsValid s protocol_error _ v
  dispatch_frame-IsValid (FrameType.other n) f s len v = v

  -- Whatever frame of a peer is processed, with a payload below 2^24 bytes as a reader delivers it,
  -- the windows stay between 32767 and 65535 and the peer's settings within what HTTP/2 allows,
  -- given that the handlers of the application keep this.
  pub process_frame-IsValid :
      (f : Frame) (s : Session)
      → length f.payload < 2 ^ 24
      → IsValid s
      → IsValid (process_frame h f s)
  unfolding process_frame
  process_frame-IsValid f s len v =
      let expected =
        not (is_continuation f.hdr.type) || not (f.hdr.stream_id == s.continuation_stream) in
      let refused = goaway s protocol_error (bytes "Expected CONTINUATION") in
      if-IsValid (s.continuation_stream == 0) (dispatch_frame h f.hdr.type f s)
        (if expected then refused else handle_continuation h f s)
        (dispatch_frame-IsValid f.hdr.type f s len v)
        (if-IsValid expected refused (handle_continuation h f s)
          (goaway-IsValid s protocol_error (bytes "Expected CONTINUATION") v)
          (handle_continuation-IsValid h k f s v))

  -- The reader alone is changed.
  with_reader :
      (r : Reader) (s : Session)
      → Reader.Inv.IsValid r
      → IsValid s
      → IsValid (record s { reader = r })
  with_reader r s w v = record {
    limits = record {
      connection = v.connection;
      each_stream = v.each_stream;
      frame_low = v.frame_low;
      frame_high = v.frame_high;
      initial_window = v.initial_window;
      reader_valid = w;
    };
  }

  taken_payload :
      (r : Reader)
      → Reader.Inv.IsValid r
      → Reader.has_frame r ≡ true
      → length (Reader.take_frame r).0.payload < 2 ^ 24
  unfolding Reader.take_frame Reader.has_frame
  taken_payload r v e = ground (arith, v.parsed)

  drain-IsValid : (fuel : ℕ) (s : Session) → IsValid s → IsValid (drain fuel h s)
  unfolding drain process_next
  drain-IsValid zero s v = v
  drain-IsValid (suc fuel) s v = elim (Bool-cases (Reader.has_frame s.reader)) [
    | inr e ↦ rw (e, drain) v
    | inl e ↦
        let taken = Reader.take_frame s.reader in
        let s' = process_next h s in
        let v' : IsValid s' =
          process_frame-IsValid taken.0 (record s { reader = taken.1 })
            (taken_payload s.reader v.reader_valid e)
            (with_reader taken.1 s (take_frame-IsValid s.reader v.reader_valid).0 v) in
        elim (Bool-cases s'.alive) [
          | inl a ↦ rw (e, drain) (rw (a, drain) (drain-IsValid fuel s' v'))
          | inr a ↦ rw (e, drain) (rw (a, drain) v')
        ]
  ]

  feed_loop-IsValid :
      (fuel : ℕ) (input : List ℕ) (total : ℕ) (s : Session)
      → All IsByte input
      → IsValid s
      → IsValid (feed_loop fuel h input total s).0
  unfolding feed_loop
  feed_loop-IsValid zero input total s b v = v
  feed_loop-IsValid (suc fuel) [] total s b v = v
  feed_loop-IsValid (suc fuel) (x ∷ xs) total s b v = elim (Bool-cases s.alive) [
    | inr dead ↦ rw (dead, feed_loop) v
    | inl alive ↦
        let fed = Reader.feed s.reader (x ∷ xs) in
        let s' = drain 2 h (record s { reader = fed.0 }) in
        let r = Reader.Inv.feed-IsValid s.reader (x ∷ xs) v.reader_valid b in
        let v' : IsValid s' =
          drain-IsValid 2 (record s { reader = fed.0 }) (with_reader fed.0 s r v) in
        let stop = fed.1 == 0 && not (Reader.has_frame s'.reader) in
        elim (Bool-cases stop) [
          | inl e ↦ rw (alive, feed_loop) (rw (e, feed_loop) v')
          | inr e ↦
              rw (alive, feed_loop)
                (rw (e, feed_loop)
                  (feed_loop-IsValid fuel (drop fed.1 (x ∷ xs)) (total + fed.1) s'
                    (All-drop IsByte fed.1 (x ∷ xs) b) v'))
        ]
  ]

  -- Whatever bytes a peer sends, a session keeps its invariant, given that the handlers of the
  -- application keep it: the receive windows of the connection and of each stream between 32767 and
  -- 65535, the peer's frame size between 16384 and 16777215, its initial window at most 2^31 - 1,
  -- and a valid frame reader.
  pub feed_bytes-IsValid :
      (input : List ℕ) (s : Session) → All IsByte input → IsValid s → IsValid (feed h input s).0
  unfolding feed
  feed_bytes-IsValid input s b v =
      let fed = feed_loop (length input) h input 0 (note_preface s) in
      let result : Bool → Session × ℤ = λ a. if not a then (s, negsuc 0) else (fed.0, pos fed.1) in
      elim s.alive as (λ a. IsValid (result a).0) [
        | false ↦ v
        | true ↦
            feed_loop-IsValid (length input) input 0 (note_preface s) b
              (record { limits = v.limits })
      ]
