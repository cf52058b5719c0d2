-- ===== src/Http2/Session/Inv/Sending.antt =====
-- What the application sends keeps the invariant of `http2_session::impl`.
use async_net.Http2.Session.Submit.{overflows}
use async_net.Base.{◌||◌}
use async_net.Base.{
  ℕ, ◌+◌, List, [], ◌∷◌, Bool, true, false, not, is_empty, ◌≡◌, refl, Bool-cases, inl, inr,
  if◌then◌else◌, Option, ◌||◌,
}
use async_net.Http.Headers.{Headers}
use async_net.Http.Message.{Request, Response}
use async_net.Http2.Frame.Flag
use async_net.Http2.Hpack.Entry.{Entry}
use async_net.Http2.Session.State.{Session, Stream, enqueue, stream_or_new}
use async_net.Http2.Session.Submit.{
  send_headers, submit_trailers, submit_response, submit_data, submit_request, submit_push,
  send_body, send_trailers, place_stream, send_promise, close, requested, submitted_frames,
  promised, keep_all, lowered, response_fields, request_fields,
}
use async_net.Http2.Session.Frames.{build_headers_frame}
use async_net.Http2.Session.Inv.{
  IsValid, modify_stream-IsValid, put_stream-StreamsIn, stream_or_new-InWindow, with_streams,
}

pub send_headers-IsValid :
    (sid flags : ℕ) (hdrs : List Entry) (s : Session)
    → IsValid s
    → IsValid (send_headers sid flags hdrs s)
unfolding send_headers build_headers_frame
send_headers-IsValid sid flags hdrs s v = record { limits = v.limits }

send_body-IsValid :
    (sid : ℕ) (body : List ℕ) (no_end_stream : Bool) (s : Session)
    → IsValid s
    → IsValid (send_body sid body no_end_stream s)
unfolding send_body
send_body-IsValid sid [] no_end_stream s v = v
send_body-IsValid sid (b ∷ bs) no_end_stream s v = record { limits = v.limits }

send_trailers-IsValid :
    (sid : ℕ) (trailers : Headers) (s : Session)
    → IsValid s
    → IsValid (send_trailers sid trailers s)
unfolding send_trailers
send_trailers-IsValid sid [] s v = v
send_trailers-IsValid sid (e ∷ es) s v =
    send_headers-IsValid sid Flag.end_stream (lowered keep_all (e ∷ es)) s v

pub submit_trailers-IsValid :
    (s : Session) (sid : ℕ) (trailers : Headers)
    → IsValid s
    → IsValid (submit_trailers s sid trailers)
unfolding submit_trailers
submit_trailers-IsValid s sid trailers v =
    let fields = lowered keep_all trailers in
    modify_stream-IsValid sid close (send_headers sid Flag.end_stream fields s) (λ ss. refl)
      (send_headers-IsValid sid Flag.end_stream fields s v)

pub submit_response-IsValid :
    (s : Session) (sid : ℕ) (resp : Response) → IsValid s → IsValid (submit_response s sid resp)
unfolding submit_response
submit_response-IsValid s sid resp v =
    let has_trailers = not (is_empty resp.trailers) in
    let flags = if not (is_empty resp.bd) || has_trailers then 0 else Flag.end_stream in
    let s₁ = send_headers sid flags (response_fields resp) s in
    let s₂ = send_body sid resp.bd has_trailers s₁ in
    modify_stream-IsValid sid close (send_trailers sid resp.trailers s₂) (λ ss. refl)
      (send_trailers-IsValid sid resp.trailers s₂ (
        send_body-IsValid sid resp.bd has_trailers s₁
          (send_headers-IsValid sid flags (response_fields resp) s v)))

pub submit_data-IsValid :
    (s : Session) (sid : ℕ) (input : List ℕ) (end_stream : Bool)
    → IsValid s
    → IsValid (submit_data s sid input end_stream)
unfolding submit_data
submit_data-IsValid s sid input true v =
    modify_stream-IsValid sid close
      (enqueue s (submitted_frames s.peer_max_frame_size sid input true)) (λ ss. refl)
      (record { limits = v.limits })
submit_data-IsValid s sid input false v = record { limits = v.limits }

place_stream-IsValid :
    (sid : ℕ) (change : Stream → Stream) (s : Session)
    → ((ss : Stream) → (change ss).recv_window ≡ ss.recv_window)
    → IsValid s
    → IsValid (place_stream sid change s)
unfolding place_stream
place_stream-IsValid sid change s same v =
    let old = stream_or_new sid s.streams in
    with_streams _ v (
      put_stream-StreamsIn sid (change old) s.streams
        (rw (same old) (stream_or_new-InWindow sid s.streams v.each_stream)) v.each_stream)

pub submit_request-IsValid :
    (s : Session) (req : Request) (promise : Option ℕ) (no_end_stream : Bool)
    → IsValid s
    → IsValid (submit_request s req promise no_end_stream).1
unfolding submit_request
submit_request-IsValid s req promise no_end_stream v =
    let sid = s.next_stream_id in
    let flags = if not (is_empty req.bd) || no_end_stream then 0 else Flag.end_stream in
    let placed = place_stream-IsValid sid (requested sid promise) s (λ ss. refl) v in
    let s₁ = record (place_stream sid (requested sid promise) s) {
      next_stream_id = sid + 2;
      undefined = s.undefined || overflows (sid + 2);
    } in
    send_body-IsValid sid req.bd false (send_headers sid flags (request_fields req) s₁)
      (send_headers-IsValid sid flags (request_fields req) s₁ (record { limits = placed.limits }))

pub submit_push-IsValid :
    (s : Session) (parent_sid : ℕ) (req : Request) (resp : Response)
    → IsValid s
    → IsValid (submit_push s parent_sid req resp).1
unfolding submit_push send_promise
submit_push-IsValid s parent_sid req resp v = elim (Bool-cases (not s.peer_enable_push)) [
  | inl off ↦ rw (off, submit_push) v
  | inr on ↦
      let sid = s.next_push_stream_id in
      let s₁ = record (send_promise parent_sid sid (request_fields req) s) {
        next_push_stream_id = sid + 2;
        undefined = s.undefined || overflows (sid + 2);
      } in
      rw (on, submit_push)
        (submit_response-IsValid (place_stream sid (promised sid) s₁) sid resp
          (place_stream-IsValid sid (promised sid) s₁ (λ ss. refl) (record { limits = v.limits })))
]
