-- ===== src/Http/Message.antt =====
-- `request`, `response`, their builders and `status_code` of include/async_net/http/types.hpp. A
-- body is the list of its bytes.
pub mod Built
pub mod Targets
use async_net.Base.{
  ℕ, ◌≤◌, List, [], ◌∷◌, ◌++◌, Bool, true, false, ◌&&◌, not, bytes, is_empty, length,
}
use async_net.Base.{if◌then◌else◌, ℤ, pos, ltb_ℤ, Option, none, some, ◌==◌}
use async_net.Http.Text.{decimal, split_at_byte}
use async_net.Http.Method.{Method, get, Version, http_11}
use async_net.Http.Headers.{Headers}
use async_net.Http.Headers

unfoldable pub reason_phrase : ℤ → List ℕ
reason_phrase (ℤ.negsuc n) = bytes "Unknown"
reason_phrase (pos code) =
    if code == 100
    then bytes "Continue"
    else if code == 200
    then bytes "OK"
    else if code == 201
    then bytes "Created"
    else if code == 204
    then bytes "No Content"
    else if code == 301
    then bytes "Moved Permanently"
    else if code == 302
    then bytes "Found"
    else if code == 304
    then bytes "Not Modified"
    else if code == 400
    then bytes "Bad Request"
    else if code == 401
    then bytes "Unauthorized"
    else if code == 403
    then bytes "Forbidden"
    else if code == 404
    then bytes "Not Found"
    else if code == 405
    then bytes "Method Not Allowed"
    else if code == 408
    then bytes "Request Timeout"
    else if code == 413
    then bytes "Payload Too Large"
    else if code == 500
    then bytes "Internal Server Error"
    else if code == 502
    then bytes "Bad Gateway"
    else if code == 503
    then bytes "Service Unavailable"
    else bytes "Unknown"

pub record Request : Type 0 where
  pub method : Method
  pub path : List ℕ
  pub query : List ℕ
  pub ver : Version
  pub hdrs : Headers
  pub bd : List ℕ

abbrev pub new_request : Request
new_request = record {
  method = get;
  path = b'/' ∷ [];
  query = [];
  ver = http_11;
  hdrs = [];
  bd = [];
}

pub record Response : Type 0 where
  pub status : ℤ
  pub ver : Version
  pub hdrs : Headers
  pub bd : List ℕ
  pub trailers : Headers

abbrev pub new_response : Response
new_response = record { status = pos 200; ver = http_11; hdrs = []; bd = []; trailers = [] }

-- A request target cut at its first '?', as `http1_codec` and `http2_session` do.
unfoldable pub set_target : Request → List ℕ → Request
unfolding split_at_byte
set_target req target =
    let set_path = λ (r : Request). if is_empty r.path then record r { path = b'/' ∷ [] } else r in
    elim (split_at_byte b'?' target) [
      | none ↦ set_path (record req { path = target })
      | some (path, query) ↦ set_path (record req { path = path; query = query })
    ]

-- The length of a body that is not empty, unless the fields have one.
unfoldable pub with_content_length : Headers → List ℕ → Headers
with_content_length hdrs bd =
    if not (is_empty bd) && not (Headers.contains hdrs (bytes "Content-Length"))
    then Headers.set hdrs (bytes "Content-Length") (decimal (length bd))
    else hdrs

-- `request_builder::build`
unfoldable pub build_request : Request → Request
build_request req = record req { hdrs = with_content_length req.hdrs req.bd }

-- `response_builder::build`
unfoldable pub build_response : Response → Response
build_response resp =
    let hdrs = with_content_length resp.hdrs resp.bd in
    record resp {
      hdrs =
          if not (Headers.contains hdrs (bytes "Content-Type"))
          then Headers.set hdrs (bytes "Content-Type") (bytes "text/plain")
          else hdrs;
    }

-- `response_not_found`
unfoldable pub response_not_found : Response
unfolding build_response
response_not_found =
    build_response (record new_response { status = pos 404; bd = bytes "Not Found" })

unfoldable response_ok : List ℕ → Response
response_ok body_text = build_response (record new_response { bd = body_text })

unfoldable response_bad_request : List ℕ → Response
response_bad_request msg = build_response (record new_response { status = pos 400; bd = msg })

unfoldable response_internal_error : List ℕ → Response
response_internal_error msg = build_response (record new_response { status = pos 500; bd = msg })

-- `header` of both builders; the other setters are updates of a field.
unfoldable request_header : Request → List ℕ → List ℕ → Request
request_header req k v = record req { hdrs = Headers.append req.hdrs k v }

unfoldable response_header : Response → List ℕ → List ℕ → Response
response_header resp k v = record resp { hdrs = Headers.append resp.hdrs k v }
