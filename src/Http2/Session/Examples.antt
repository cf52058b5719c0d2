-- ===== src/Http2/Session/Examples.antt =====
-- Tests and instances for src/http/http2_session.cpp.
use async_net.Http.Text.{decimal}
use async_net.Http.Text.Searching.{lacks}
use async_net.Http.Message.Targets.{to_send}
use async_net.Http2.Session.Delivered.{without, lower_name}
use async_net.Base.{arith, [], ◌∷◌, true, none, ◌≡◌, refl, bit_or, bytes, bytes_eq, pos}
use async_net.Http.Method.{http_2}
use async_net.Http.Headers
use async_net.Http.Text.{to_lower}
use async_net.Http.Message.{Request, new_request, Response, new_response, set_target}
use async_net.Http2.Frame.Code.{headers}
use async_net.Http2.Frame.Flag
use async_net.Http2.Hpack.Entry.{entry}
use async_net.Http2.Session.State.{Session, Handlers, server, new_session, find_stream}
use async_net.Base.{◌-ℤ◌}
use async_net.Http2.Frame.{Frame}
use async_net.Http2.Frame.Code.{settings}
use async_net.Http2.Session.State.{new_stream, client}
use async_net.Http2.Session.Credit.{HasCredit, handle_settings-HasCredit}
use async_net.Http2.Session.Settings.{handle_settings}
use async_net.Http2.Session.Dispatch.{is_pseudo, apply_fields, apply_response_fields}
use async_net.Http2.Session.Submit.{request_fields, response_fields}
use async_net.Http2.Session.Feed.{feed, process_frame}
use async_net.Http2.Session.Fragments.{made, fragments, process_all}
use async_net.Http2.Session.Fragments.Reassembly.{process_all-fragments}
use async_net.Http2.Session.Inv.{IsValid, Keeps, new_session-IsValid}
use async_net.Http2.Session.Inv.Feeding.{feed_bytes-IsValid}
use async_net.Http2.Session.Messages.{
  apply_fields-request_fields, apply_response_fields-response_fields,
}

-- Handlers that do nothing.
abbrev quiet : Handlers
quiet = record {
  request_handler = none;
  streaming_request_handler = none;
  request_start_handler = none;
  push_provider = none;
  push_handler = none;
  data_callback = λ callback sid input end_stream s. s;
  resume = λ waiter s. s;
}

quiet-Keeps : Keeps IsValid quiet
quiet-Keeps = record {
  request = λ f e req s v. cc;
  pushes = λ f e req s v. cc;
  streaming = λ f e sid req s v. cc;
  start = λ f e sid req end_stream s v. cc;
  push = λ f e info s v. cc;
  on_data = λ callback sid input end_stream s v. v;
  on_resume = λ waiter s v. v;
}

abbrev server_session : Session
server_session = new_session server

process_all-fragments_example :
    process_all quiet (fragments 2 1 Flag.end_stream (0x82 ∷ 0x86 ∷ 0x84 ∷ [])) server_session
    ≡ process_frame quiet
        (made headers (bit_or Flag.end_stream Flag.end_headers) 1 (0x82 ∷ 0x86 ∷ 0x84 ∷ []))
        server_session
unfolding new_session find_stream
process_all-fragments_example =
    process_all-fragments quiet 2 1 true (0x82 ∷ 0x86 ∷ 0x84 ∷ []) server_session refl refl
      (omega arith) refl (omega arith)

feed_bytes-IsValid_example :
    IsValid (feed quiet (0 ∷ 0 ∷ 1 ∷ 0 ∷ 0 ∷ 0 ∷ 0 ∷ 0 ∷ 1 ∷ 7 ∷ []) server_session).0
feed_bytes-IsValid_example =
    feed_bytes-IsValid quiet quiet-Keeps (0 ∷ 0 ∷ 1 ∷ 0 ∷ 0 ∷ 0 ∷ 0 ∷ 0 ∷ 1 ∷ 7 ∷ []) server_session
      (omega arith) (new_session-IsValid server)

abbrev ask : Request
ask = record new_request {
  path = bytes "/a";
  query = bytes "b";
  hdrs =
      entry (bytes "Host") (bytes "h")
      ∷ entry (bytes "X-Id") (bytes "7")
      ∷ entry (bytes "Connection") (bytes "close")
      ∷ [];
}

apply_fields-request_fields_example :
    apply_fields set_target new_request (request_fields (to_send ask)) ≡ record ask {
      ver = http_2;
      hdrs = entry (bytes "Host") (bytes "h") ∷ entry (bytes "x-id") (bytes "7") ∷ [];
    }
unfolding is_pseudo Headers.get_all bytes_eq to_lower without lower_name lacks
apply_fields-request_fields_example =
    apply_fields-request_fields ask (refl, (refl, (refl, tt))) refl refl

abbrev answer : Response
answer = record new_response { hdrs = entry (bytes "X-Id") (bytes "7") ∷ []; bd = bytes "ok" }

apply_response_fields-response_fields_example :
    apply_response_fields new_response (response_fields answer) ≡ record new_response {
      status = pos 200;
      ver = http_2;
      hdrs = entry (bytes "content-length") (bytes "2") ∷ entry (bytes "x-id") (bytes "7") ∷ [];
    }
unfolding is_pseudo Headers.get_all bytes_eq to_lower without lower_name decimal
apply_response_fields-response_fields_example =
    apply_response_fields-response_fields answer 200 refl (omega arith) (refl, tt)

-- A client that has sent a request on the stream 1.
abbrev asking : Session
asking = record (new_session client) { streams = (1, new_stream) ∷ [] }

-- INITIAL_WINDOW_SIZE is set to 10.
abbrev small_window : Frame
small_window = made settings 0 0 (0 ∷ 4 ∷ 0 ∷ 0 ∷ 0 ∷ 10 ∷ [])

handle_settings-HasCredit_example : HasCredit 1 (pos 0) (handle_settings small_window asking)
unfolding new_session find_stream ◌-ℤ◌
handle_settings-HasCredit_example =
    handle_settings-HasCredit 1 (pos 0) small_window asking (new_stream, refl, refl)
