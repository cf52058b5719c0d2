-- ===== src/Http2/Session/Inv/Dispatching.antt =====
-- A complete message keeps the invariant of `http2_session::impl`, where the handlers keep it.
use async_net.Base.{
  ℕ, List, [], ◌∷◌, ◌++◌, Bool, true, false, refl, Option-cases, inl, inr, if◌then◌else◌, Option,
  some, none,
}
use async_net.Http.Message.{Request, Response, response_not_found}
use async_net.Http2.Hpack.Entry.{Entry}
use async_net.Http2.Session.State.{Session, Stream, Promise, Handlers, modify_stream, find_stream}
use async_net.Http2.Session.Submit.{submit_response, submit_push}
use async_net.Http2.Session.Dispatch.{
  push_all, respond, dispatch_request, settle_promise, complete_promise, decode_block,
  start_request, apply_headers, apply_response_headers, take_body, move_body, move_response,
  set_request, handled, request_of, set_response, modify_promise, waiter_of,
}
use async_net.Http2.Session.Inv.{IsValid, Keeps, modify_stream-IsValid}
use async_net.Http2.Session.Inv.Sending.{submit_response-IsValid, submit_push-IsValid}

push_all-IsValid :
    (sid : ℕ) (pushes : List (Request × Response)) (s : Session)
    → IsValid s
    → IsValid (push_all sid pushes s)
unfolding push_all
push_all-IsValid sid [] s v = v
push_all-IsValid sid ((req, resp) ∷ pushes) s v =
    push_all-IsValid sid pushes (submit_push s sid req resp).1
      (submit_push-IsValid s sid req resp v)

pub decode_block-IsValid :
    (s : Session) (block : List ℕ) → IsValid s → IsValid (decode_block s block).1
unfolding decode_block
decode_block-IsValid s block v = record { limits = v.limits }

pub if-IsValid : (b : Bool) (s t : Session) → IsValid s → IsValid t → IsValid (if b then s else t)
if-IsValid true s t hs ht = hs
if-IsValid false s t hs ht = ht

module _ (h : Handlers) (k : Keeps IsValid h) where
  respond-IsValid :
      (sid : ℕ) (req : Request) (s : Session) → IsValid s → IsValid (respond h sid req s)
  unfolding respond
  respond-IsValid sid req s v = elim (Option-cases h.request_handler) [
    | inl e ↦ rw (e, respond) (submit_response-IsValid s sid response_not_found v)
    | inr (handler, e) ↦
        let resp = (handler req s).1 in
        let s' = submit_response (handler req s).0 sid resp in
        let v' = submit_response-IsValid (handler req s).0 sid resp (k.request handler e req s v) in
        elim (Option-cases h.push_provider) [
          | inl f ↦ rw (e, respond) (rw f v')
          | inr (provider, f) ↦
              rw (e, respond)
                (rw f (
                  if-IsValid s'.peer_enable_push _ _
                    (push_all-IsValid sid (provider req s').1 (provider req s').0
                      (k.pushes provider f req s' v'))
                    v'))
        ]
  ]

  pub dispatch_request-IsValid :
      (sid : ℕ) (s : Session) → IsValid s → IsValid (dispatch_request h sid s)
  unfolding dispatch_request
  dispatch_request-IsValid sid s v = elim (Option-cases (find_stream sid s.streams)) [
    | inl e ↦ rw (e, dispatch_request) v
    | inr (ss, e) ↦
        let req = (take_body ss).req in
        let s₁ = modify_stream sid take_body s in
        let v₁ = modify_stream-IsValid sid take_body s (λ x. refl) v in
        elim (Option-cases h.streaming_request_handler) [
          | inl f ↦ rw (e, dispatch_request) (rw f (respond-IsValid sid req s₁ v₁))
          | inr (handler, f) ↦
              let v₂ = k.streaming handler f sid req s₁ v₁ in
              rw (e, dispatch_request)
                (rw f (
                  if-IsValid (handler sid req s₁).1 _ _ v₂
                    (respond-IsValid sid req (handler sid req s₁).0 v₂)))
        ]
  ]

  pub settle_promise-IsValid :
      (p : ℕ) (change : Promise → Promise) (s : Session)
      → IsValid s
      → IsValid (settle_promise h p change s)
  unfolding settle_promise
  settle_promise-IsValid p change s v =
      let s' : Session = record s {
        promises = modify_promise p change s.promises;
        completed_promises = s.completed_promises ++ (p ∷ []);
      } in
      elim (Option-cases (waiter_of p s'.promises)) [
        | inl e ↦ rw (e, settle_promise) (record { limits = v.limits })
        | inr (waiter, e) ↦
            rw (e, settle_promise) (k.on_resume waiter s' (record { limits = v.limits }))
      ]

  pub complete_promise-IsValid :
      (sid : ℕ) (s : Session) → IsValid s → IsValid (complete_promise h sid s)
  unfolding complete_promise
  complete_promise-IsValid sid s v = elim (Option-cases (find_stream sid s.streams)) [
    | inl e ↦ rw (e, complete_promise) v
    | inr (ss, e) ↦ rw (e, complete_promise) (settle ss.promise ss)
  ]
    where
      settle :
          (promise : Option ℕ) (ss : Stream)
          → IsValid (elim promise [
            | none ↦ modify_stream sid move_body s
            | some p ↦
                settle_promise h p
                  (λ (x : Promise). record x { resp = (move_body ss).resp; complete = true })
                  (modify_stream sid move_response s)
          ])
      settle none ss = modify_stream-IsValid sid move_body s (λ x. refl) v
      settle (some p) ss =
          settle_promise-IsValid p _ (modify_stream sid move_response s)
            (modify_stream-IsValid sid move_response s (λ x. refl) v)

  pub apply_response_headers-IsValid :
      (sid : ℕ) (headers : List Entry) (end_stream : Bool) (s : Session)
      → IsValid s
      → IsValid (apply_response_headers h sid headers end_stream s)
  unfolding apply_response_headers
  apply_response_headers-IsValid sid headers end_stream s v =
      let s₁ = modify_stream sid (set_response headers end_stream) s in
      let v₁ = modify_stream-IsValid sid (set_response headers end_stream) s (λ x. refl) v in
      if-IsValid end_stream (complete_promise h sid s₁) s₁ (complete_promise-IsValid sid s₁ v₁) v₁

  start_request-IsValid :
      (sid : ℕ) (end_stream : Bool) (s : Session)
      → IsValid s
      → IsValid (start_request h sid end_stream s)
  unfolding start_request
  start_request-IsValid sid end_stream s v = elim (Option-cases h.request_start_handler) [
    | inl e ↦
        rw (e, start_request)
          (if-IsValid end_stream (dispatch_request h sid s) s (dispatch_request-IsValid sid s v) v)
    | inr (start, e) ↦
        let (s₂, taken) = start sid (request_of sid s) end_stream s in
        let v₂ = k.start start e sid (request_of sid s) end_stream s v in
        rw (e, start_request)
          (if-IsValid taken _ _ (modify_stream-IsValid sid handled s₂ (λ x. refl) v₂)
            (if-IsValid end_stream _ _ (dispatch_request-IsValid sid s₂ v₂) v₂))
  ]

  pub apply_headers-IsValid :
      (sid : ℕ) (headers : List Entry) (end_stream : Bool) (s : Session)
      → IsValid s
      → IsValid (apply_headers h sid headers end_stream s)
  unfolding apply_headers
  apply_headers-IsValid sid headers end_stream s v =
      start_request-IsValid sid end_stream _
        (modify_stream-IsValid sid (set_request headers end_stream) s (λ x. refl) v)
