-- ===== src/Http2/Hpack/Codec.antt =====
-- `encode_string`, `decode_string`, `class hpack_encoder` and `class hpack_decoder` of
-- src/http/hpack.cpp.
pub mod Strings
pub mod Fields
pub mod RoundTrip
use async_net.Base.{ℕ, zero, suc, ◌+◌, ◌-◌, ◌%◌, ◌^◌, List, [], ◌∷◌, ◌++◌, Bool, true, false, ◌&&◌}
use async_net.Base.{Option, none, some, bit_and, ltb, leb, ◌==◌, if◌then◌else◌, length, take, drop}
use async_net.Base.{get_elem?, not}
use async_net.Http2.Hpack.Int.{IntResult, done, encode_int, decode_int}
use async_net.Http2.Hpack.Entry.{Entry, entry, find_from}
use async_net.Http2.Hpack.StaticTable.{static_table}
use async_net.Http2.Hpack.Huffman.{huffman_encode, huffman_decode, huffman_is_shorter}
use async_net.Http2.Hpack.DynamicTable
use async_net.Http2.Hpack.DynamicTable.{Table, new_table, sub_size}

-- `bad` is an error that the C++ function reports. `undefined` is a step that C++ leaves undefined:
-- a shift too far, or a read behind the input.
pub data Parsed {ℓ} (A : Type ℓ) : Type ℓ where
  ok : A → Parsed A
  bad undefined : Parsed A

infixl 5 ◌>>=◌
abbrev pub ◌>>=◌ {ℓ κ} : {A : Type ℓ} {B : Type κ} → Parsed A → (A → Parsed B) → Parsed B
ok a >>= f = f a
bad >>= f = bad
undefined >>= f = undefined

abbrev pub int_buf_size : ℕ
int_buf_size = 16

-- `hpack_find_static`: the search starts at the entry 1.
unfoldable pub find_static : List ℕ → List ℕ → ℕ × Bool
find_static name value = find_from 1 0 name value (drop 1 static_table)

unfoldable pub encode_string : List ℕ → List ℕ
unfolding encode_int
encode_string s =
    if huffman_is_shorter s
    then encode_int int_buf_size (length (huffman_encode s)) 7 0x80 ++ huffman_encode s
    else encode_int int_buf_size (length s) 7 0x00 ++ s

-- An integer at the front of the input, and what follows it.
unfoldable pub read_int : List ℕ → ℕ → Parsed (ℕ × List ℕ)
read_int input prefix_bits = elim (decode_int input prefix_bits) [
  | done consumed value ↦ ok (value, drop consumed input)
  | IntResult.fail ↦ bad
  | IntResult.undefined ↦ undefined
]

-- `decode_string`, and what follows the string. The test adds `consumed` to a `uint64_t` and may
-- wrap; where it passes by that, and where the length does not fit the `int` of the result, the
-- function is undefined.
unfoldable pub read_string : List ℕ → Parsed (List ℕ × List ℕ)
read_string [] = bad
read_string (b ∷ bs) =
    let input = b ∷ bs in
    let huffman = not (bit_and b 0x80 == 0) in
    elim (decode_int input 7) [
      | IntResult.fail ↦ bad
      | IntResult.undefined ↦ undefined
      | done consumed str_len ↦
          if ltb (length input) ((consumed + str_len) % 2 ^ 64)
          then bad
          else if ltb (length input) (consumed + str_len)
          then undefined
          else if leb (2 ^ 31) (consumed + str_len)
          then undefined
          else let raw = take str_len (drop consumed input) in
            ok (if huffman then huffman_decode raw else raw, drop (consumed + str_len) input)
    ]

-- `class hpack_encoder`
pub record Encoder : Type 0 where
  pub dynamic_table : Table
  pub max_table_size : ℕ
  pub table_size_updated : Bool

abbrev pub new_encoder : ℕ → Encoder
new_encoder size = record {
  dynamic_table = new_table size;
  max_table_size = size;
  table_size_updated = false;
}

unfoldable pub encoder_set_max_table_size : Encoder → ℕ → Encoder
encoder_set_max_table_size e size = record e {
  max_table_size = size;
  dynamic_table = DynamicTable.resize e.dynamic_table size;
  table_size_updated = true;
}

-- The body of the loop of `hpack_encoder::encode`: the bytes for one header.
unfoldable pub encode_header : Entry → List ℕ
encode_header h =
    let (static_idx, static_exact) = find_static h.name h.value in
    if static_exact
    then encode_int int_buf_size static_idx 7 0x80
    else encode_int int_buf_size 0 4 0x00 ++ (encode_string h.name ++ encode_string h.value)

unfoldable pub encode_headers : List Entry → List ℕ
encode_headers [] = []
encode_headers (h ∷ hs) = encode_header h ++ encode_headers hs

unfoldable pub encode : Encoder → List Entry → List ℕ × Encoder
unfolding encode_headers
encode e headers =
    if e.table_size_updated
    then (
      encode_int int_buf_size e.max_table_size 5 0x20 ++ encode_headers headers,
      record e { table_size_updated = false },
    )
    else (encode_headers headers, e)

-- `class hpack_decoder`
pub record Decoder : Type 0 where
  pub dynamic_table : Table
  pub max_table_size : ℕ

abbrev pub new_decoder : ℕ → Decoder
new_decoder size = record { dynamic_table = new_table size; max_table_size = size }

unfoldable pub decoder_set_max_table_size : Decoder → ℕ → Decoder
decoder_set_max_table_size d size = record {
  max_table_size = size;
  dynamic_table = DynamicTable.resize d.dynamic_table size;
}

-- `hpack_decoder::get_indexed`: the static table, then the dynamic one.
unfoldable pub get_indexed : Table → ℕ → Option Entry
get_indexed t index =
    if ltb 0 index && ltb index (length static_table)
    then get_elem? static_table index
    else DynamicTable.get t (sub_size index (length static_table))

-- What one field of a header block says: a header, one that is also to be added to the dynamic
-- table, or a new size for the table.
pub data Field : Type 0 where
  header added : Entry → Field
  table_size : ℕ → Field

abbrev found : Option Entry → Parsed Entry
found none = bad
found (some e) = ok e

-- The name of a literal: by its index, or as a string.
unfoldable pub read_name : Table → ℕ → List ℕ → Parsed (List ℕ × List ℕ)
read_name t name_index input =
    if ltb 0 name_index
    then (found (get_indexed t name_index) >>= λ e. ok (e.name, input))
    else read_string input

unfoldable pub read_literal : Table → ℕ → List ℕ → Parsed (Entry × List ℕ)
read_literal t prefix_bits input = do
  (name_index, input₁) ← read_int input prefix_bits
  (name, input₂) ← read_name t name_index input₁
  (value, input₃) ← read_string input₂
  ok (entry name value, input₃)

-- The body of the loop of `hpack_decoder::decode` on the input from `data + pos` on.
unfoldable pub read_field : Table → List ℕ → Parsed (Field × List ℕ)
read_field t [] = bad
read_field t (byte ∷ bs) =
    let input = byte ∷ bs in
    if not (bit_and byte 0x80 == 0)
    then (do
      (index, rest) ← read_int input 7
      e ← (if index == 0 then bad else found (get_indexed t index))
      ok (header e, rest))
    else if not (bit_and byte 0x40 == 0)
    then (read_literal t 6 input >>= λ (e, rest). ok (added e, rest))
    else if not (bit_and byte 0x20 == 0)
    then (read_int input 5 >>= λ (n, rest). ok (table_size n, rest))
    else (read_literal t 4 input >>= λ (e, rest). ok (header e, rest))

-- The state of the loop: the table, `result` and `new_entries`.
pub record Progress : Type 0 where
  pub table : Table
  pub result : List Entry
  pub new_entries : List Entry

unfoldable pub take_field : Progress → Field → Progress
take_field p (header e) = record p { result = p.result ++ (e ∷ []) }
take_field p (added e) = record p {
  result = p.result ++ (e ∷ []);
  new_entries = p.new_entries ++ (e ∷ []);
}
take_field p (table_size n) = record p { table = DynamicTable.resize p.table n }

-- How the loop ends, beside what it has done by then.
pub data Ending : Type 0 where
  complete error undefined : Ending

-- The loop, on fuel: each field takes a byte at least.
unfoldable pub decode_loop : ℕ → Progress → List ℕ → Progress × Ending
decode_loop fuel p [] = (p, complete)
decode_loop zero p (b ∷ bs) = (p, error)
decode_loop (suc fuel) p (b ∷ bs) = elim (read_field p.table (b ∷ bs)) [
  | bad ↦ (p, error)
  | undefined ↦ (p, Ending.undefined)
  | ok (field, rest) ↦ decode_loop fuel (take_field p field) rest
]

unfoldable pub add_all : Table → List Entry → Table
add_all t [] = t
add_all t (e ∷ es) = add_all (DynamicTable.add t e.name e.value) es

-- What `decode` leaves behind its loop. The result is empty on an error too; `none` is undefined.
unfoldable pub block_result : Progress × Ending → Option (List Entry) × Table
block_result (p, complete) = (some p.result, add_all p.table p.new_entries)
block_result (p, error) = (some [], p.table)
block_result (p, Ending.undefined) = (none, p.table)

unfoldable pub decode_block : Table → List ℕ → Option (List Entry) × Table
unfolding block_result
decode_block t input =
    block_result
      (decode_loop (length input) (record { table = t; result = []; new_entries = [] }) input)

unfoldable pub decode : Decoder → List ℕ → Option (List Entry) × Decoder
unfolding decode_block
decode d input =
    let (result, t) = decode_block d.dynamic_table input in (result, record d { dynamic_table = t })
