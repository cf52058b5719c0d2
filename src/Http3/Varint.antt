-- ===== src/Http3/Varint.antt =====
-- `encode_varint`, `decode_varint` and `append_varint` of src/http/h3_frame.hpp: QUIC integers.
pub mod RoundTrip
use async_net.Base.{
  ℕ, ◌+◌, ◌*◌, ◌/◌, ◌%◌, ◌^◌, List, [], ◌∷◌, ◌++◌, Option, none, some, bit_and, bit_or,
}
use async_net.Base.{ltb, ◌==◌, if◌then◌else◌, length, at, byte_at}

-- The bytes that are stored; none where the result is 0.
unfoldable pub encode_varint : ℕ → ℕ → List ℕ
encode_varint bufsize value =
    if ltb value 64
    then (if ltb bufsize 1 then [] else value ∷ [])
    else if ltb value 16384
    then (if ltb bufsize 2 then [] else bit_or (value / 2 ^ 8) 0x40 % 256 ∷ byte_at value 0 ∷ [])
    else if ltb value 1073741824
    then (if ltb bufsize 4
        then []
        else bit_or (value / 2 ^ 24) 0x80 % 256
          ∷ byte_at value 16
          ∷ byte_at value 8
          ∷ byte_at value 0
          ∷ [])
    else if ltb value 4611686018427387904
    then (if ltb bufsize 8
        then []
        else bit_or (value / 2 ^ 56) 0xC0 % 256
          ∷ byte_at value 48
          ∷ byte_at value 40
          ∷ byte_at value 32
          ∷ byte_at value 24
          ∷ byte_at value 16
          ∷ byte_at value 8
          ∷ byte_at value 0
          ∷ [])
    else []

-- The value and the bytes consumed; `none` is the result 0. The shifted bytes have no bit in common,
-- so the disjunctions are sums.
unfoldable pub decode_varint : List ℕ → Option (ℕ × ℕ)
decode_varint buf =
    if length buf == 0
    then none
    else let prefix = at buf 0 / 2 ^ 6 in
      let top = bit_and (at buf 0) 0x3F in
      if prefix == 0
      then some (top, 1)
      else if prefix == 1
      then (if ltb (length buf) 2 then none else some (top * 2 ^ 8 + at buf 1, 2))
      else if prefix == 2
      then (if ltb (length buf) 4
          then none
          else some (top * 2 ^ 24 + at buf 1 * 2 ^ 16 + at buf 2 * 2 ^ 8 + at buf 3, 4))
      else if prefix == 3
      then (if ltb (length buf) 8
          then none
          else some (
            top * 2 ^ 56
                + at buf 1 * 2 ^ 48
                + at buf 2 * 2 ^ 40
                + at buf 3 * 2 ^ 32
                + at buf 4 * 2 ^ 24
                + at buf 5 * 2 ^ 16
                + at buf 6 * 2 ^ 8
                + at buf 7,
            8,
          ))
      else none

-- `append_varint`: what is appended.
unfoldable pub varint : ℕ → List ℕ
unfolding encode_varint
varint value = encode_varint 8 value
