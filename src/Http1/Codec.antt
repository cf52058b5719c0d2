-- ===== src/Http1/Codec.antt =====
-- The parsers and serializers of messages of src/http/http1_codec.cpp.
use async_net.Base.{
  ℕ, ◌+◌, ◌^◌, List, [], ◌∷◌, ◌++◌, Bool, true, false, ◌&&◌, ◌||◌, not, is_empty, length,
}
use async_net.Base.{
  if◌then◌else◌, ℤ, pos, negsuc, Option, none, some, ltb, leb, ◌==◌, bytes, bytes_eq,
}
use async_net.Http.Text.{decimal_int, from_chars, split_at_byte}
use async_net.Http.Method.{
  Method, parse_method, method_name, Version, http_10, http_11, version_name,
}
use async_net.Http.Headers.{Headers, has_value, content_length, is_chunked}
use async_net.Http.Headers
use async_net.Http.Message.{Request, new_request, Response, new_response, set_target, reason_phrase}
use async_net.Http1.Lines.{crlf, split_crlf, split_header_end, parse_header_lines}
use async_net.Http1.Body.{BodyResult, result, invalid, parse_body}

-- `need_more` is `std::nullopt`, `failed` an exception, and `endless` a body whose loop has used
-- up its fuel.
pub data Parsed {ℓ} (A : Type ℓ) : Type ℓ where
  done : A → ℕ → Parsed A
  need_more failed endless : Parsed A

unfoldable pub with_body {ℓ} : {A : Type ℓ} → (List ℕ → A) → ℕ → BodyResult → Parsed A
with_body message header_end (result bd consumed true) = done (message bd) (header_end + consumed)
with_body message header_end (result bd consumed false) = need_more
with_body message header_end invalid = failed
with_body message header_end BodyResult.unfinished = endless

unfoldable pub parse_version : List ℕ → Version
parse_version s = if bytes_eq s (bytes "HTTP/1.0") then http_10 else http_11

abbrev start_request : List ℕ → List ℕ → Option Method → Option Request
start_request target version none = none
start_request target version (some m) =
    some (set_target (record new_request { method = m; ver = parse_version version }) target)

-- A request line, and none where it is not one.
unfoldable pub parse_request_line : List ℕ → Option Request
unfolding split_at_byte parse_method parse_version set_target
parse_request_line line = elim (split_at_byte b' ' line) [
  | none ↦ none
  | some (name, rest) ↦ elim (split_at_byte b' ' rest) [
    | none ↦ none
    | some (target, version) ↦ start_request target version (parse_method name)
  ]
]

abbrev finish_request : List ℕ → List ℕ → ℕ → Option Request → Parsed Request
finish_request block body header_end none = failed
finish_request block body header_end (some req) =
    let hdrs = parse_header_lines block req.hdrs in
    with_body (λ bd. record req { hdrs = hdrs; bd = bd }) header_end (parse_body body hdrs)

unfoldable pub parse_request : List ℕ → Parsed Request
unfolding split_header_end split_crlf parse_request_line parse_header_lines parse_body with_body
parse_request input = elim (split_header_end input) [
  | none ↦ need_more
  | some (before, body) ↦ elim (split_crlf (before ++ crlf)) [
    | none ↦ need_more
    | some (line, block) ↦ finish_request block body (length before + 4) (parse_request_line line)
  ]
]

abbrev pub code_word : List ℕ → Option (List ℕ × List ℕ) → List ℕ
code_word rest none = rest
code_word rest (some (word, reason)) = word

abbrev pub start_response : List ℕ → ℤ → Option Response
start_response version (negsuc n) = none
start_response version (pos code) =
    if ltb code 100 || ltb 599 code
    then none
    else some (record new_response { status = pos code; ver = parse_version version })

-- A status line, and none where it is not one.
unfoldable pub parse_status_line : List ℕ → Option Response
unfolding split_at_byte from_chars parse_version
parse_status_line line = elim (split_at_byte b' ' line) [
  | none ↦ none
  | some (version, rest) ↦
      start_response version
        (from_chars (2 ^ 31) (code_word rest (split_at_byte b' ' rest)) (pos 0))
]

unfoldable pub has_no_body : ℤ → Bool
has_no_body (negsuc n) = false
has_no_body (pos code) = code == 204 || code == 304 || leb 100 code && ltb code 200

-- The body of a response whose fields say nothing of its length.
unfoldable pub unsized_body : ℤ → List ℕ → BodyResult
unfolding has_no_body
unsized_body status body =
    if has_no_body status
    then result [] 0 true
    else if is_empty body
    then result [] 0 false
    else result body (length body) true

unfoldable pub response_body : ℤ → List ℕ → Headers → BodyResult
unfolding unsized_body content_length is_chunked parse_body
response_body status body hdrs =
    if not (has_value (content_length hdrs)) && not (is_chunked hdrs)
    then unsized_body status body
    else parse_body body hdrs

abbrev finish_response : List ℕ → List ℕ → ℕ → Option Response → Parsed Response
finish_response block body header_end none = failed
finish_response block body header_end (some resp) =
    let hdrs = parse_header_lines block resp.hdrs in
    with_body (λ bd. record resp { hdrs = hdrs; bd = bd }) header_end
      (response_body resp.status body hdrs)

unfoldable pub parse_response : List ℕ → Parsed Response
unfolding split_header_end split_crlf parse_status_line parse_header_lines response_body with_body
parse_response input = elim (split_header_end input) [
  | none ↦ need_more
  | some (before, body) ↦ elim (split_crlf (before ++ crlf)) [
    | none ↦ need_more
    | some (line, block) ↦ finish_response block body (length before + 4) (parse_status_line line)
  ]
]

unfoldable pub request_line : Request → List ℕ
unfolding method_name version_name
request_line req = method_name req.method ++ (b' ' ∷ (req.path ++ (b' ' ∷ version_name req.ver)))

unfoldable pub serialize_request : Request → List ℕ
unfolding request_line Headers.serialize
serialize_request req =
    request_line req ++ (crlf ++ (Headers.serialize req.hdrs ++ (crlf ++ req.bd)))

unfoldable pub status_line : Response → List ℕ
unfolding version_name decimal_int reason_phrase
status_line resp =
    version_name resp.ver
    ++ (b' ' ∷ (decimal_int resp.status ++ (b' ' ∷ reason_phrase resp.status)))

unfoldable pub serialize_response : Response → List ℕ
unfolding status_line Headers.serialize
serialize_response resp =
    status_line resp ++ (crlf ++ (Headers.serialize resp.hdrs ++ (crlf ++ resp.bd)))
