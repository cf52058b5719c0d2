-- ===== src/Http1/Examples.antt =====
-- Tests and instances for src/http/http1_codec.cpp.
use async_net.Base.{
  List, [], ◌∷◌, ◌++◌, ℕ, zero, suc, true, ◌≡◌, refl, bytes, bytes_eq, arith, length,
}
use async_net.Http.Text.{to_lower}
use async_net.Http.Method.{post}
use async_net.Http.Headers.{Headers, is_chunked, content_length}
use async_net.Http.Message.{Request, new_request, Response, new_response}
use async_net.Http2.Hpack.Entry.{entry}
use async_net.Http1.Lines.{crlf, parse_header_lines}
use async_net.Http1.Body.{result, invalid, unfinished, chunk_loop, parse_chunked}
use async_net.Http1.Codec.{
  done, need_more, failed, parse_request, serialize_request, parse_response, serialize_response,
}
use async_net.Http1.Fields.{are_line_fields}
use async_net.Http.Text.Searching.{lacks}
use async_net.Http.Message.Targets.{target_text, to_send}
use async_net.Http1.Requests.{is_http_1, is_line_request, parse_request-serialize_request}
use async_net.Http1.Hex.{hex}
use async_net.Http1.Chunks.{chunks_text, joined, are_chunks, parse_chunked-chunks_text}
use async_net.Http1.Responses.{parse_response-serialize_response}

abbrev some_fields : Headers
some_fields = entry (bytes "Host") (bytes "h") ∷ entry (bytes "Content-Length") (bytes "2") ∷ []

abbrev some_request : Request
some_request = record new_request {
  method = post;
  path = bytes "/a";
  query = bytes "b";
  hdrs = some_fields;
  bd = bytes "hi";
}

abbrev some_response : Response
some_response = record new_response { hdrs = some_fields; bd = bytes "hi" }

folded_line :
    parse_header_lines (bytes "A : b " ++ (crlf ++ (bytes "  c" ++ (crlf ++ crlf)))) []
    ≡ entry (bytes "A") (bytes "b   c") ∷ []
unfolding parse_header_lines
folded_line = refl

chunks :
    parse_chunked
      (bytes "3;x" ++ (crlf ++ (bytes "abc" ++ (crlf ++ (bytes "0" ++ (crlf ++ crlf))))))
    ≡ result (bytes "abc") 15 true
unfolding parse_chunked
chunks = refl

abbrev wrapping_size : List ℕ
wrapping_size = bytes "ffffffffffffffec" ++ crlf

-- The size in this body moves the position back to its start, so no number of rounds is enough.
wrapping_size_unfinished : (fuel : ℕ) → chunk_loop fuel wrapping_size 0 [] ≡ unfinished
unfolding chunk_loop
wrapping_size_unfinished zero = refl
wrapping_size_unfinished (suc fuel) = wrapping_size_unfinished fuel

no_chunk_size : parse_chunked (bytes "x" ++ crlf) ≡ invalid
unfolding parse_chunked
no_chunk_size = refl

head_without_end : parse_request (bytes "GET / HTTP/1.1" ++ crlf) ≡ need_more
unfolding parse_request
head_without_end = refl

unknown_method : parse_request (bytes "GOT / HTTP/1.1" ++ (crlf ++ crlf)) ≡ failed
unfolding parse_request bytes_eq
unknown_method = refl

target_with_query : (to_send some_request).path ≡ bytes "/a?b"
unfolding target_text
target_with_query = refl

parse_request-serialize_request_example :
    parse_request (serialize_request (to_send some_request) ++ bytes "GET")
    ≡ done some_request (length (serialize_request (to_send some_request)))
unfolding is_line_request is_chunked content_length to_lower bytes_eq target_text lacks
parse_request-serialize_request_example =
    parse_request-serialize_request some_request (bytes "GET") refl refl refl refl refl

parse_response-serialize_response_example :
    parse_response (serialize_response some_response ++ bytes "HTTP")
    ≡ done some_response (length (serialize_response some_response))
unfolding is_chunked content_length is_http_1 are_line_fields bytes_eq to_lower
parse_response-serialize_response_example =
    parse_response-serialize_response some_response 200 (bytes "HTTP") refl (omega arith)
      (omega arith) refl refl refl refl

parse_chunked-chunks_text_example :
    parse_chunked (chunks_text (bytes "abc" ∷ bytes "de" ∷ []) ++ bytes "GET")
    ≡ result (bytes "abcde") 20 true
unfolding chunks_text joined are_chunks hex
parse_chunked-chunks_text_example =
    parse_chunked-chunks_text (bytes "abc" ∷ bytes "de" ∷ []) (bytes "GET") refl (omega arith)
