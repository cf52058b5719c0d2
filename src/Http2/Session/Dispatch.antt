-- ===== src/Http2/Session/Dispatch.antt =====
-- A complete message in src/http/http2_session.cpp: `apply_headers`, `apply_response_headers`,
-- `dispatch_request` and `complete_promise`.
use async_net.Base.{
  ℕ, zero, suc, ◌^◌, List, [], ◌∷◌, ◌++◌, Bool, true, false, ◌||◌, not, Option, none, some,
}
use async_net.Base.{◌==◌, if◌then◌else◌, bytes, bytes_eq, pos}
use async_net.Http.Text.{from_chars}
use async_net.Http.Method.{Method, parse_method, http_2}
use async_net.Http.Headers.{Headers}
use async_net.Http.Headers
use async_net.Http.Message.{Request, Response, set_target, response_not_found}
use async_net.Http2.Hpack.Entry.{Entry}
use async_net.Http2.Hpack.Codec
use async_net.Http2.Session.State
use async_net.Http2.Session.State.{
  Session, Stream, Promise, Handlers, server, client, find_stream, modify_stream,
}
use async_net.Http2.Session.Submit.{submit_response, submit_push}

-- `name[0] == ':'`
unfoldable pub is_pseudo : List ℕ → Bool
is_pseudo [] = false
is_pseudo (c ∷ cs) = c == b':'

abbrev with_method : Request → Option Method → Request
with_method req none = req
with_method req (some m) = record req { method = m }

-- The body of the loop of `apply_headers`. What the two functions that read a request do with the
-- target differs, so it is an argument.
unfoldable pub apply_field : (Request → List ℕ → Request) → Request → Entry → Request
unfolding bytes_eq is_pseudo
apply_field target req e =
    if bytes_eq e.name (bytes ":method")
    then with_method req (parse_method e.value)
    else if bytes_eq e.name (bytes ":path")
    then target req e.value
    else if bytes_eq e.name (bytes ":scheme") || bytes_eq e.name (bytes ":authority")
    then (if bytes_eq e.name (bytes ":authority")
        then record req { hdrs = Headers.append req.hdrs (bytes "Host") e.value }
        else req)
    else if not (is_pseudo e.name)
    then record req { hdrs = Headers.append req.hdrs e.name e.value }
    else req

unfoldable pub apply_fields : (Request → List ℕ → Request) → Request → List Entry → Request
unfolding apply_field
apply_fields target req [] = record req { ver = http_2 }
apply_fields target req (e ∷ es) = apply_fields target (apply_field target req e) es

-- The body of the loop of `apply_response_headers`.
unfoldable pub apply_response_field : Response → Entry → Response
unfolding bytes_eq is_pseudo
apply_response_field resp e =
    if bytes_eq e.name (bytes ":status")
    then record resp { status = from_chars (2 ^ 31) e.value (pos 0) }
    else if not (is_pseudo e.name)
    then record resp { hdrs = Headers.append resp.hdrs e.name e.value }
    else resp

unfoldable pub apply_response_fields : Response → List Entry → Response
unfolding apply_response_field
apply_response_fields resp [] = record resp { ver = http_2 }
apply_response_fields resp (e ∷ es) = apply_response_fields (apply_response_field resp e) es

unfoldable pub push_all : ℕ → List (Request × Response) → Session → Session
unfolding submit_push
push_all sid [] s = s
push_all sid ((req, resp) ∷ pushes) s = push_all sid pushes (submit_push s sid req resp).1

-- The request handler's response, and the pushes that go with it.
unfoldable pub respond : Handlers → ℕ → Request → Session → Session
unfolding submit_response push_all
respond h sid req s = elim h.request_handler [
  | none ↦ submit_response s sid response_not_found
  | some handler ↦
      let (s₁, resp) = handler req s in
      let s' = submit_response s₁ sid resp in
      elim h.push_provider [
        | none ↦ s'
        | some provider ↦
            let (s₂, pushes) = provider req s' in
            if s'.peer_enable_push then push_all sid pushes s₂ else s'
      ]
]

abbrev pub take_body : Stream → Stream
take_body ss = record ss { req = record ss.req { bd = ss.body }; body = [] }

-- `dispatch_request` for the stream `ss` of the map.
unfoldable pub dispatch_request : Handlers → ℕ → Session → Session
unfolding modify_stream respond find_stream
dispatch_request h sid s = elim (find_stream sid s.streams) [
  | none ↦ s
  | some ss ↦
      let req = (take_body ss).req in
      let s₁ = modify_stream sid take_body s in
      elim h.streaming_request_handler [
        | none ↦ respond h sid req s₁
        | some handler ↦
            let (s₂, taken) = handler sid req s₁ in if taken then s₂ else respond h sid req s₂
      ]
]

unfoldable pub modify_promise : ℕ → (Promise → Promise) → List Promise → List Promise
modify_promise p change [] = []
modify_promise zero change (x ∷ xs) = change x ∷ xs
modify_promise (suc p) change (x ∷ xs) = x ∷ modify_promise p change xs

unfoldable pub waiter_of : ℕ → List Promise → Option ℕ
waiter_of p [] = none
waiter_of zero (x ∷ xs) = x.waiter
waiter_of (suc p) (x ∷ xs) = waiter_of p xs

-- A promise that is done: it is queued, and who waits for it is resumed.
unfoldable pub settle_promise : Handlers → ℕ → (Promise → Promise) → Session → Session
unfolding modify_promise waiter_of
settle_promise h p change s =
    let s' = record s {
      promises = modify_promise p change s.promises;
      completed_promises = s.completed_promises ++ (p ∷ []);
    } in
    elim (waiter_of p s'.promises) [ none ↦ s' | some waiter ↦ h.resume waiter s' ]

-- The response with the body that has come. A string and a vector are empty when they have been
-- moved away.
abbrev pub move_body : Stream → Stream
move_body ss = record ss { resp = record ss.resp { bd = ss.body }; body = [] }

abbrev pub move_response : Stream → Stream
move_response ss = record ss {
  resp = record ss.resp { hdrs = []; bd = []; trailers = [] };
  body = [];
}

-- `complete_promise` for the stream `ss` of the map.
unfoldable pub complete_promise : Handlers → ℕ → Session → Session
unfolding modify_stream settle_promise find_stream
complete_promise h sid s = elim (find_stream sid s.streams) [
  | none ↦ s
  | some ss ↦ elim ss.promise [
    | none ↦ modify_stream sid move_body s
    | some p ↦
        settle_promise h p
          (λ (x : Promise). record x { resp = (move_body ss).resp; complete = true })
          (modify_stream sid move_response s)
  ]
]

abbrev or_empty : Option (List Entry) → List Entry
or_empty none = []
or_empty (some headers) = headers

abbrev is_none : Option (List Entry) → Bool
is_none none = true
is_none (some headers) = false

-- `decoder_.decode`
unfoldable pub decode_block : Session → List ℕ → List Entry × Session
decode_block s block =
    let (result, decoder) = Codec.decode s.decoder block in
    (or_empty result, record s { decoder = decoder; undefined = s.undefined || is_none result })

abbrev pub set_request : List Entry → Bool → Stream → Stream
set_request headers end_stream ss = record ss {
  headers_complete = true;
  req = apply_fields set_target ss.req headers;
  end_stream = ss.end_stream || end_stream;
}

abbrev pub handled : Stream → Stream
handled ss = record ss { streaming_handled = true }

abbrev pub request_of : ℕ → Session → Request
request_of sid s = (State.stream_or_new sid s.streams).req

-- The end of `apply_headers`, with the request in the stream.
unfoldable pub start_request : Handlers → ℕ → Bool → Session → Session
unfolding modify_stream dispatch_request
start_request h sid end_stream s = elim h.request_start_handler [
  | none ↦ if end_stream then dispatch_request h sid s else s
  | some start ↦
      let (s₂, taken) = start sid (request_of sid s) end_stream s in
      if taken
      then modify_stream sid handled s₂
      else if end_stream
      then dispatch_request h sid s₂
      else s₂
]

-- `apply_headers` for the stream of the map.
unfoldable pub apply_headers : Handlers → ℕ → List Entry → Bool → Session → Session
unfolding modify_stream start_request apply_fields
apply_headers h sid headers end_stream s =
    start_request h sid end_stream (modify_stream sid (set_request headers end_stream) s)

abbrev pub set_response : List Entry → Bool → Stream → Stream
set_response headers end_stream ss = record ss {
  headers_complete = true;
  resp = apply_response_fields ss.resp headers;
  end_stream = ss.end_stream || end_stream;
}

-- `apply_response_headers` for the stream of the map.
unfoldable pub apply_response_headers : Handlers → ℕ → List Entry → Bool → Session → Session
unfolding modify_stream complete_promise apply_response_fields
apply_response_headers h sid headers end_stream s =
    let s₁ = modify_stream sid (set_response headers end_stream) s in
    if end_stream then complete_promise h sid s₁ else s₁
