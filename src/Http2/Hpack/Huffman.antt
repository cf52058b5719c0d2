-- ===== src/Http2/Hpack/Huffman.antt =====
-- `huffman_encode`, `huffman_is_shorter` and `huffman_decode` of src/http/hpack.cpp.
mod Tests
pub mod BitString
pub mod Encode
pub mod PrefixCode
pub mod Decode
pub mod Shadowed
use async_net.Base.{ℕ, zero, suc, ◌+◌, ◌-◌, ◌*◌, ◌/◌, ◌%◌, ◌^◌, List, [], ◌∷◌, ◌++◌, Bool, ◌&&◌}
use async_net.Base.{
  Option, none, some, bit_and, bit_or, ltb, leb, ◌==◌, if◌then◌else◌, length, get_or,
}
use async_net.Base.{byte_at, not}
use async_net.Http2.Hpack.HuffmanTable.{HuffSym, huff_entry, huff}

-- `HUFF[ch]`
unfoldable pub symbol : ℕ → HuffSym
unfolding huff
symbol ch = get_or huff ch (huff_entry 0 0)

-- `while (bit_count >= 8)`: the bytes that it appends to the output and what it leaves of
-- `bit_count`. Each round takes 8 bits off, so `bit_count` rounds are enough.
unfoldable pub emit : ℕ → ℕ → ℕ → List ℕ × ℕ
emit zero bit_buf bit_count = ([], bit_count)
emit (suc fuel) bit_buf bit_count =
    let rest = emit fuel bit_buf (bit_count - 8) in
    if leb 8 bit_count then (byte_at bit_buf (bit_count - 8) ∷ rest.0, rest.1) else ([], bit_count)

-- `bit_buf = (bit_buf << s.bits) | s.code` in a `uint64_t`. The code has `bits` bits, so the
-- disjunction is a sum.
abbrev pub push_code : ℕ → HuffSym → ℕ
push_code bit_buf s = bit_buf * 2 ^ s.bits % 2 ^ 64 + s.code

-- The padding: the bits that are left, then ones.
unfoldable pub pad : ℕ → ℕ → List ℕ
pad bit_buf bit_count =
    if ltb 0 bit_count
    then ((bit_buf * 2 ^ (8 - bit_count) % 2 ^ 64 + (2 ^ (8 - bit_count) - 1)) % 256) ∷ []
    else []

unfoldable pub encode_from : ℕ → ℕ → List ℕ → List ℕ
unfolding emit pad symbol
encode_from bit_buf bit_count [] = pad bit_buf bit_count
encode_from bit_buf bit_count (ch ∷ input) =
    let s = symbol ch in
    let buf = push_code bit_buf s in
    let out = emit (bit_count + s.bits) buf (bit_count + s.bits) in
    out.0 ++ encode_from buf out.1 input

unfoldable pub huffman_encode : List ℕ → List ℕ
unfolding encode_from
huffman_encode input = encode_from 0 0 input

unfoldable pub count_bits : List ℕ → ℕ
unfolding symbol
count_bits [] = 0
count_bits (ch ∷ input) = (symbol ch).bits + count_bits input

unfoldable pub huffman_is_shorter : List ℕ → Bool
unfolding count_bits
huffman_is_shorter input = ltb ((count_bits input + 7) / 8) (length input)

-- The search for a symbol: the loop over `sym` from 0 to 255, `left` of them still to be tried.
unfoldable pub find_symbol : ℕ → List HuffSym → ℕ → ℕ → ℕ → Option ℕ
find_symbol zero syms sym code code_bits = none
find_symbol (suc left) [] sym code code_bits = none
find_symbol (suc left) (s ∷ syms) sym code code_bits =
    let rest = find_symbol left syms (sym + 1) code code_bits in
    if s.bits == code_bits && s.code == code then some sym else rest

unfoldable pub match_symbol : ℕ → ℕ → Option ℕ
unfolding find_symbol huff
match_symbol code code_bits = find_symbol 256 huff 0 code code_bits

-- The state of the decoder: `result`, `code` and `code_bits`.
pub record Decoder : Type 0 where
  pub result : List ℕ
  pub code : ℕ
  pub code_bits : ℕ

-- One round of the inner loop, on the bit that it reads; `none` is `return {}`.
unfoldable pub decode_bit : Decoder → ℕ → Option Decoder
decode_bit d bit =
    let code = (d.code * 2) % 2 ^ 32 + bit in
    let code_bits = d.code_bits + 1 in
    elim (match_symbol code code_bits) [
      | some sym ↦ some (record { result = d.result ++ (sym ∷ []); code = 0; code_bits = 0 })
      | none ↦
          if ltb 30 code_bits
          then none
          else some (record { result = d.result; code = code; code_bits = code_bits })
    ]

-- The bits of a byte, `(data[i] >> bit) & 1` for `bit` from `left - 1` down to 0.
unfoldable pub decode_byte : ℕ → Decoder → ℕ → Option Decoder
unfolding decode_bit
decode_byte zero d byte = some d
decode_byte (suc left) d byte = elim (decode_bit d (byte / 2 ^ left % 2)) [
  | none ↦ none
  | some d' ↦ decode_byte left d' byte
]

unfoldable pub decode_bytes : Decoder → List ℕ → Option Decoder
unfolding decode_byte
decode_bytes d [] = some d
decode_bytes d (b ∷ bs) = elim (decode_byte 8 d b) [ none ↦ none | some d' ↦ decode_bytes d' bs ]

-- The check of the bits that are left: at most 7, all ones.
unfoldable pub finish : Decoder → List ℕ
finish d =
    if ltb 7 d.code_bits
    then []
    else let mask = 2 ^ d.code_bits - 1 in
      if not (bit_and d.code mask == mask) then [] else d.result

-- The empty string is also the answer to an error.
unfoldable pub huffman_decode : List ℕ → List ℕ
unfolding decode_bytes finish
huffman_decode input = elim (decode_bytes (record { result = []; code = 0; code_bits = 0 }) input) [
  | none ↦ []
  | some d ↦ finish d
]
