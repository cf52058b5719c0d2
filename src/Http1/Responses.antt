-- ===== src/Http1/Responses.antt =====
-- The parser of responses in src/http/http1_codec.cpp reads what the serializer writes.
use async_net.Http.Text.{is_digit}
use async_net.Http.Text.Searching.{lacks, lacks-append, split_at_byte-append, lacks-decimal}
use async_net.Base.{List, [], ◌∷◌, ◌++◌, ℕ, true, false, arith, ◌≤◌, ◌<◌, ◌^◌}
use async_net.Base.{some, ◌≡◌, refl, sym, ap, ◌∙◌, length, ◌+◌, ℤ, pos}
use async_net.Http.Text.{split_at_byte, decimal, decimal_int, from_chars}
use async_net.Http.Text.Decimal.{from_chars-decimal}
use async_net.Http.Method.{Version, version_name, http_10, http_11, http_2, http_3}
use async_net.Http.Headers.{Headers, is_chunked, content_length}
use async_net.Http.Message.{Response, new_response, reason_phrase}
use async_net.Http1.Lines.{crlf, split_crlf, split_header_end, parse_header_lines}
use async_net.Http1.Body.{result, parse_body}
use async_net.Http1.Codec.{
  done, parse_status_line, code_word, start_response, status_line, serialize_response,
  parse_response, response_body, with_body,
}
use async_net.Http1.Fields.{are_line_fields, parse_header_lines-serialize}
use async_net.Http1.Heads.{
  split_header_end-line, split_header_end-serialize, split_crlf-behind_crlf, length-message,
  message-append,
}
use async_net.Http1.Requests.{
  is_http_1, parse_version-version_name, lacks-version_name, parse_body-length,
}

lacks-reason_phrase : (status : ℤ) → lacks b'\r' (reason_phrase status) ≡ true
unfolding lacks reason_phrase
lacks-reason_phrase (ℤ.negsuc n) = refl
lacks-reason_phrase (pos code) = ground arith

lacks-version_space : (v : Version) → lacks b' ' (version_name v) ≡ true
unfolding lacks version_name
lacks-version_space http_10 = refl
lacks-version_space http_11 = refl
lacks-version_space http_2 = refl
lacks-version_space http_3 = refl

lacks-status_line :
    (resp : Response) (code : ℕ) → resp.status ≡ pos code → lacks b'\r' (status_line resp) ≡ true
unfolding status_line decimal_int lacks is_digit
lacks-status_line resp code e =
    lacks-append b'\r' (version_name resp.ver) _ (lacks-version_name resp.ver) (
      lacks-append b'\r' (decimal_int resp.status) (b' ' ∷ reason_phrase resp.status)
        (rw e (lacks-decimal b'\r' code refl)) (lacks-reason_phrase resp.status))

abbrev start : Response → Response
start resp = record new_response { status = resp.status; ver = resp.ver }

status_code-decimal :
    (code : ℕ) (reason : List ℕ)
    → code < 600
    → (let rest = decimal_int (pos code) ++ (b' ' ∷ reason) in
        from_chars (2 ^ 31) (code_word rest (split_at_byte b' ' rest)) (pos 0) ≡ pos code)
unfolding decimal_int is_digit
status_code-decimal code reason h =
    rw (split_at_byte-append b' ' (decimal code) reason (lacks-decimal b' ' code refl))
      (from_chars-decimal (2 ^ 31) code (pos 0) (omega arith))

start_response-code :
    (resp : Response) (code : ℕ)
    → resp.status ≡ pos code
    → 100 ≤ code
    → code < 600
    → is_http_1 resp.ver ≡ true
    → start_response (version_name resp.ver) (pos code) ≡ some (start resp)
start_response-code resp code e h1 h2 hv =
    rw (parse_version-version_name resp.ver hv) (rw e (ground arith))

parse_status_line-status_line :
    (resp : Response) (code : ℕ)
    → resp.status ≡ pos code
    → 100 ≤ code
    → code < 600
    → is_http_1 resp.ver ≡ true
    → parse_status_line (status_line resp) ≡ some (start resp)
unfolding status_line parse_status_line
parse_status_line-status_line resp code e h1 h2 hv =
    rw
      (
        split_at_byte-append b' ' (version_name resp.ver) _ (lacks-version_space resp.ver),
        parse_status_line,
      )
      (ap (start_response (version_name resp.ver)) (
          ap
            (λ s.
              from_chars (2 ^ 31)
                (code_word (decimal_int s ++ (b' ' ∷ reason_phrase resp.status))
                  (split_at_byte b' ' (decimal_int s ++ (b' ' ∷ reason_phrase resp.status))))
                (pos 0))
            e
          ∙ status_code-decimal code _ h2)
        ∙ start_response-code resp code e h1 h2 hv)

response_body-sized :
    (status : ℤ) (body : List ℕ) (hs : Headers) (n : ℕ)
    → content_length hs ≡ some n
    → response_body status body hs ≡ parse_body body hs
unfolding response_body
response_body-sized status body hs n e = rw e refl

parse_response-parts :
    (input before body line block : List ℕ) (resp : Response) (hs : Headers) (bd : List ℕ) (n : ℕ)
    → split_header_end input ≡ some (before, body)
    → split_crlf (before ++ crlf) ≡ some (line, block)
    → parse_status_line line ≡ some resp
    → parse_header_lines block resp.hdrs ≡ hs
    → response_body resp.status body hs ≡ result bd n true
    → parse_response input ≡ done (record resp { hdrs = hs; bd = bd }) (length before + 4 + n)
unfolding parse_response with_body
parse_response-parts input before body line block resp hs bd n e1 e2 e3 e4 e5 =
    rw (e1, parse_response) (rw e2 (rw e3 (rw e4 (rw e5 refl))))

-- The bytes of a response are parsed, whatever is behind them, as that response without its trailers,
-- and they are what is consumed. The response has a code from 100 to 599 and a version of HTTP/1. The
-- fields give the length of the body, and no chunks; their names and values have no '\r' and no blank
-- at either end, and the names no ':'.
pub parse_response-serialize_response :
    (resp : Response) (code : ℕ) (tail : List ℕ)
    → resp.status ≡ pos code
    → 100 ≤ code
    → code < 600
    → is_http_1 resp.ver ≡ true
    → are_line_fields resp.hdrs ≡ true
    → is_chunked resp.hdrs ≡ false
    → content_length resp.hdrs ≡ some (length resp.bd)
    → parse_response (serialize_response resp ++ tail)
      ≡ done (record resp { trailers = [] }) (length (serialize_response resp))
unfolding serialize_response
parse_response-serialize_response resp code tail hs h1 h2 hv hf hc hl =
    ap parse_response (message-append (status_line resp) resp.hdrs resp.bd tail)
    ∙ parse_response-parts _ _ _ _ _ (start resp) resp.hdrs resp.bd _
        (split_header_end-line (status_line resp) _ _ _ lacks_cr
          (split_header_end-serialize resp.hdrs (resp.bd ++ tail) hf))
        (split_crlf-behind_crlf (status_line resp) resp.hdrs lacks_cr)
        (parse_status_line-status_line resp code hs h1 h2 hv)
        (parse_header_lines-serialize resp.hdrs [] hf)
        (response_body-sized resp.status (resp.bd ++ tail) resp.hdrs _ hl
          ∙ parse_body-length resp.bd tail resp.hdrs hc hl)
    ∙ ap (done (record resp { trailers = [] }))
        (sym (length-message (status_line resp) resp.hdrs resp.bd))
  where
    lacks_cr : lacks b'\r' (status_line resp) ≡ true
    lacks_cr = lacks-status_line resp code hs
