-- ===== src/Http1/Body.antt =====
-- `parse_body` of src/http/http1_codec.cpp. A text is shorter than 2^63 bytes.
use async_net.Base.{
  ℕ, zero, suc, ◌+◌, ◌-◌, ◌*◌, ◌%◌, ◌^◌, List, [], ◌∷◌, ◌++◌, Bool, true, false, ◌&&◌, not, Option,
  none, some,
}
use async_net.Base.{◌==◌, ltb, leb, if◌then◌else◌, length, take, drop}
use async_net.Http.Headers.{Headers, is_chunked, content_length}
use async_net.Http1.Lines.{split_crlf}

-- The value of a hexadecimal digit, or 16.
unfoldable pub hex_value : ℕ → ℕ
hex_value c =
    if leb b'0' c && leb c b'9'
    then c - b'0'
    else if leb b'a' c && leb c b'f'
    then c - 87
    else if leb b'A' c && leb c b'F'
    then c - 55
    else 16

unfoldable pub hex_digits : List ℕ → ℕ → ℕ
unfolding hex_value
hex_digits [] acc = acc
hex_digits (c ∷ s) acc =
    let rest = hex_digits s (acc * 16 + hex_value c) in if ltb (hex_value c) 16 then rest else acc

-- `std::from_chars(…, chunk_size, 16)` for a `size_t`, and none where it reports an error.
unfoldable pub hex_size : List ℕ → Option ℕ
unfolding hex_digits
hex_size [] = none
hex_size (c ∷ s) =
    let n = hex_digits (c ∷ s) 0 in
    if not (ltb (hex_value c) 16) then none else if leb (2 ^ 64) n then none else some n

-- `invalid` is the exception, and `unfinished` a loop that has used up its fuel.
pub data BodyResult : Type 0 where
  result : List ℕ → ℕ → Bool → BodyResult
  invalid unfinished : BodyResult

-- What a round does behind the line with the size: `pos` is the position behind the line, and
-- `rest` the data from there on. It ends the loop, or goes on at a position with more data; the sums
-- are those of a `size_t`, so the position may lie before this one.
pub data Round : Type 0 where
  stop : BodyResult → Round
  go : ℕ → List ℕ → Round

unfoldable pub chunk_round : List ℕ → ℕ → List ℕ → ℕ → ℕ → Round
chunk_round acc pos rest size total =
    if size == 0
    then (if leb (pos + 2) total
        then stop (result acc (pos + 2) true)
        else stop (result acc pos false))
    else if ltb total ((pos + size + 2) % 2 ^ 64)
    then stop (result acc 0 false)
    else go ((pos + size + 2) % 2 ^ 64) (acc ++ take size rest)

abbrev of_size : List ℕ → ℕ → List ℕ → ℕ → Option ℕ → Round
of_size acc pos rest total none = stop invalid
of_size acc pos rest total (some size) = chunk_round acc pos rest size total

-- The body of the loop, at the position `pos` of the data.
unfoldable pub chunk_step : List ℕ → ℕ → List ℕ → Round
unfolding split_crlf hex_size chunk_round
chunk_step input pos acc = elim (split_crlf (drop pos input)) [
  | none ↦ stop (result acc pos false)
  | some (line, rest) ↦ of_size acc (pos + length line + 2) rest (length input) (hex_size line)
]

unfoldable pub chunk_loop : ℕ → List ℕ → ℕ → List ℕ → BodyResult
unfolding chunk_step
chunk_loop zero input pos acc = unfinished
chunk_loop (suc fuel) input pos acc = elim (ltb pos (length input)) [
  | false ↦ result acc 0 false
  | true ↦ elim (chunk_step input pos acc) [
    | stop r ↦ r
    | go pos' acc' ↦ chunk_loop fuel input pos' acc'
  ]
]

unfoldable pub parse_chunked : List ℕ → BodyResult
unfolding chunk_loop
parse_chunked input = chunk_loop (suc (length input)) input 0 []

unfoldable pub parse_sized : List ℕ → Option ℕ → BodyResult
parse_sized input none = result [] 0 true
parse_sized input (some len) =
    if ltb (length input) len then result [] 0 false else result (take len input) len true

unfoldable pub parse_body : List ℕ → Headers → BodyResult
unfolding parse_chunked parse_sized is_chunked content_length
parse_body input hs =
    if is_chunked hs then parse_chunked input else parse_sized input (content_length hs)
