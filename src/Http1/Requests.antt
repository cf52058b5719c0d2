-- ===== src/Http1/Requests.antt =====
-- The parser of requests in src/http/http1_codec.cpp reads what the serializer writes.
use async_net.Http.Text.Searching.{lacks, lacks-append, split_at_byte-append}
use async_net.Base.{List, [], ◌∷◌, ◌++◌, ℕ, Bool, true, false, ◌&&◌, arith}
use async_net.Base.{
  some, ◌≡◌, refl, sym, ap, ap₂, ◌∙◌, length, ◌+◌, length-append, bytes_eq, take-append_eq,
}
use async_net.Http.Method.{Method, get, head, post, put, delete_, patch, options, trace, connect}
use async_net.Http.Method.{
  method_name, parse_method-method_name, Version, http_10, http_11, http_2, http_3, version_name,
}
use async_net.Http.Headers.{Headers, is_chunked, content_length}
use async_net.Http.Headers
use async_net.Http.Message.{Request, new_request, set_target}
use async_net.Http1.Lines.{crlf, split_crlf, split_header_end, parse_header_lines}
use async_net.Http1.Body.{result, parse_body, parse_sized}
use async_net.Http1.Codec.{
  done, parse_version, parse_request_line, request_line, serialize_request, parse_request,
  with_body,
}
use async_net.Base.{is_empty}
use async_net.Http.Message.Targets.{to_send, set_target-target_text}
use async_net.Http1.Fields.{are_line_fields, parse_header_lines-serialize}
use async_net.Http1.Heads.{
  split_header_end-line, split_header_end-serialize, split_crlf-behind_crlf, length-message,
  message-append,
}

unfoldable pub is_http_1 : Version → Bool
is_http_1 http_10 = true
is_http_1 http_11 = true
is_http_1 http_2 = false
is_http_1 http_3 = false

pub parse_version-version_name :
    (v : Version) → is_http_1 v ≡ true → parse_version (version_name v) ≡ v
unfolding is_http_1 parse_version version_name bytes_eq
parse_version-version_name http_10 h = refl
parse_version-version_name http_11 h = refl
parse_version-version_name http_2 h = cc
parse_version-version_name http_3 h = cc

pub lacks-version_name : (v : Version) → lacks b'\r' (version_name v) ≡ true
unfolding lacks version_name
lacks-version_name http_10 = refl
lacks-version_name http_11 = refl
lacks-version_name http_2 = refl
lacks-version_name http_3 = refl

lacks-method_name :
    (m : Method) → (lacks b'\r' (method_name m) ≡ true) × (lacks b' ' (method_name m) ≡ true)
unfolding lacks method_name
lacks-method_name get = (refl, refl)
lacks-method_name head = (refl, refl)
lacks-method_name post = (refl, refl)
lacks-method_name put = (refl, refl)
lacks-method_name delete_ = (refl, refl)
lacks-method_name patch = (refl, refl)
lacks-method_name options = (refl, refl)
lacks-method_name trace = (refl, refl)
lacks-method_name connect = (refl, refl)

-- A request that the text of HTTP/1 can carry, but for its query, which is not sent.
unfoldable pub is_line_request : Request → Bool
unfolding is_http_1 lacks are_line_fields
is_line_request req =
    is_http_1 req.ver && lacks b'\r' req.path && lacks b' ' req.path && are_line_fields req.hdrs

lacks-request_line :
    (req : Request) → lacks b'\r' req.path ≡ true → lacks b'\r' (request_line req) ≡ true
unfolding request_line lacks
lacks-request_line req h =
    lacks-append b'\r' (method_name req.method) _ (lacks-method_name req.method).0
      (lacks-append b'\r' req.path (b' ' ∷ version_name req.ver) h (lacks-version_name req.ver))

abbrev pub start : Request → Request
start req = set_target (record new_request { method = req.method; ver = req.ver }) req.path

parse_request_line-request_line :
    (req : Request)
    → is_http_1 req.ver ≡ true
    → lacks b' ' req.path ≡ true
    → parse_request_line (request_line req) ≡ some (start req)
unfolding request_line parse_request_line set_target
parse_request_line-request_line req hv hp =
    rw
      (
        split_at_byte-append b' ' (method_name req.method)
            (req.path ++ (b' ' ∷ version_name req.ver)) (lacks-method_name req.method).1,
        parse_request_line,
      )
      (rw (split_at_byte-append b' ' req.path (version_name req.ver) hp) (
        rw (parse_method-method_name req.method) (rw (parse_version-version_name req.ver hv) refl)))

pub parse_body-length :
    (bd tail : List ℕ) (hs : Headers)
    → is_chunked hs ≡ false
    → content_length hs ≡ some (length bd)
    → parse_body (bd ++ tail) hs ≡ result bd (length bd) true
unfolding parse_body parse_sized
parse_body-length bd tail hs h e =
    rw h (rw e (ground (arith, length-append bd tail, take-append_eq bd tail (length bd) refl)))

set_target-hdrs : (req : Request) (target : List ℕ) → (set_target req target).hdrs ≡ req.hdrs
unfolding set_target
set_target-hdrs req target = ground arith

set_target-start :
    (req : Request)
    → record (start req) { hdrs = req.hdrs; bd = req.bd }
      ≡ set_target (record req { query = [] }) req.path
unfolding set_target
set_target-start req = ground arith

parse_request-parts :
    (input before body line block : List ℕ) (req : Request) (hs : Headers) (bd : List ℕ) (n : ℕ)
    → split_header_end input ≡ some (before, body)
    → split_crlf (before ++ crlf) ≡ some (line, block)
    → parse_request_line line ≡ some req
    → parse_header_lines block req.hdrs ≡ hs
    → parse_body body hs ≡ result bd n true
    → parse_request input ≡ done (record req { hdrs = hs; bd = bd }) (length before + 4 + n)
unfolding parse_request with_body
parse_request-parts input before body line block req hs bd n e1 e2 e3 e4 e5 =
    rw (e1, parse_request) (rw e2 (rw e3 (rw e4 (rw e5 refl))))

parse_request-serialize_request_lem :
    (req : Request) (tail : List ℕ)
    → is_line_request req ≡ true
    → is_chunked req.hdrs ≡ false
    → content_length req.hdrs ≡ some (length req.bd)
    → parse_request (serialize_request req ++ tail)
      ≡ done (set_target (record req { query = [] }) req.path) (length (serialize_request req))
unfolding is_line_request serialize_request
parse_request-serialize_request_lem req tail h hc hl =
    ap parse_request (message-append (request_line req) req.hdrs req.bd tail)
    ∙ parse_request-parts _ _ _ _ _ (start req) req.hdrs req.bd _
        (split_header_end-line (request_line req) _ _ _ lacks_cr
          (split_header_end-serialize req.hdrs (req.bd ++ tail) (ground arith)))
        (split_crlf-behind_crlf (request_line req) req.hdrs lacks_cr)
        (parse_request_line-request_line req (ground arith) (ground arith))
        (ap (parse_header_lines (Headers.serialize req.hdrs)) (set_target-hdrs _ req.path)
          ∙ parse_header_lines-serialize req.hdrs [] (ground arith))
        (parse_body-length req.bd tail req.hdrs hc hl)
    ∙ ap₂ done (set_target-start req) (sym (length-message (request_line req) req.hdrs req.bd))
  where
    lacks_cr : lacks b'\r' (request_line req) ≡ true
    lacks_cr = lacks-request_line req (ground arith)

set_target-to_send :
    (req : Request)
    → is_empty req.path ≡ false
    → lacks b'?' req.path ≡ true
    → set_target (record (to_send req) { query = [] }) (to_send req).path ≡ req
set_target-to_send req =
    set_target-target_text (record (to_send req) { query = [] }) req.path req.query refl

-- The bytes of a request are parsed, whatever is behind them, as that request, and they are what is
-- consumed. The request has a version of HTTP/1 and a path that is not empty and has no '?', and the
-- query is sent behind it; path and query have no space and no '\r'. The fields give the length of the
-- body, and no chunks; their names and values have no '\r' and no blank at either end, and the names
-- no ':'.
pub parse_request-serialize_request :
    (req : Request) (tail : List ℕ)
    → is_line_request (to_send req) ≡ true
    → is_empty req.path ≡ false
    → lacks b'?' req.path ≡ true
    → is_chunked req.hdrs ≡ false
    → content_length req.hdrs ≡ some (length req.bd)
    → parse_request (serialize_request (to_send req) ++ tail)
      ≡ done req (length (serialize_request (to_send req)))
parse_request-serialize_request req tail h ne hq hc hl =
    parse_request-serialize_request_lem (to_send req) tail h hc hl
    ∙ ap (λ r. done r (length (serialize_request (to_send req)))) (set_target-to_send req ne hq)
