-- ===== src/Http2/Hpack/Examples.antt =====
-- The theorems on HPACK at concrete inputs.
use async_net.Base.{ℕ, ◌<◌, ◌≤◌, ◌≡◌, ◌≢◌, refl, arith, Bool, true, false, ◌&&◌, not}
use async_net.Base.{List, [], ◌∷◌, ◌++◌, length, All, ltb, ltb→lt, some}
use async_net.Base.{bytes}
use async_net.Http2.Hpack.Int.{done, undefined, encode_int, decode_int}
use async_net.Http2.Hpack.Int.RoundTrip.{decode_int-encode_int, decode_int_overlong}
use async_net.Http2.Hpack.Entry.{Entry, entry}
use async_net.Http2.Hpack.DynamicTable
use async_net.Http2.Hpack.DynamicTable.{Table, new_table}
use async_net.Http2.Hpack.DynamicTable.Fit.{fit}
use async_net.Http2.Hpack.DynamicTable.Inv.{IsValid, Holds, add-Holds, resize-Holds}
use async_net.Http2.Hpack.Huffman.{symbol, huffman_encode, huffman_decode}
use async_net.Http2.Hpack.Huffman.PrefixCode.{is_shadowed}
use async_net.Http2.Hpack.Huffman.Decode.{IsClear, huffman_decode-huffman_encode}
use async_net.Http2.Hpack.Huffman.Shadowed.{huffman_decode_shadowed}
use async_net.Http2.Hpack.Codec.{
  Encoder, new_encoder, encoder_set_max_table_size, encode, Decoder, new_decoder, decode,
}
use async_net.Http2.Hpack.Codec.Fields.{IsHeader}
use async_net.Http2.Hpack.Codec.RoundTrip.{told, decode-encode}

is_clear : ℕ → Bool
is_clear ch = ltb ch 256 && not (is_shadowed ch)

every_clear : List ℕ → Bool
every_clear [] = true
every_clear (x ∷ xs) = is_clear x && every_clear xs

every_clear-IsClear : (xs : List ℕ) → every_clear xs ≡ true → All IsClear xs
unfolding every_clear is_clear
every_clear-IsClear [] h = tt
every_clear-IsClear (x ∷ xs) h = (
  (ltb→lt x 256 (ground (arith, h)), ground (arith, h)),
  every_clear-IsClear xs (ground (arith, h)),
)

abbrev host : List ℕ
host = bytes "example.org"

host-IsClear : All IsClear host
unfolding every_clear is_clear is_shadowed symbol
host-IsClear = every_clear-IsClear host refl

decode_int-encode_int_example :
    (decode_int (encode_int 16 1337 5 0x20 ++ (9 ∷ [])) 5
      ≡ done (length (encode_int 16 1337 5 0x20)) 1337)
    × (0 < length (encode_int 16 1337 5 0x20))
    × (length (encode_int 16 1337 5 0x20) ≤ 11)
decode_int-encode_int_example =
    decode_int-encode_int 15 1337 5 0x20 (9 ∷ []) (omega arith) (omega arith) refl (omega arith)
      (omega arith)

abbrev ten_groups : List ℕ
ten_groups = 128 ∷ 128 ∷ 128 ∷ 128 ∷ 128 ∷ 128 ∷ 128 ∷ 128 ∷ 128 ∷ 128 ∷ []

ten_groups-continue : All (λ g. (128 ≤ g) × (g < 256)) ten_groups
ten_groups-continue =
    let c : (128 ≤ 128) × (128 < 256) = (omega arith, omega arith) in
    (c, (c, (c, (c, (c, (c, (c, (c, (c, (c, tt))))))))))

decode_int_overlong_example : decode_int (127 ∷ (ten_groups ++ (0 ∷ []))) 7 ≡ undefined
decode_int_overlong_example =
    decode_int_overlong 127 7 ten_groups 0 [] refl refl ten_groups-continue

new_table-IsValid : IsValid (new_table 64)
new_table-IsValid = record { counted = refl; within = omega arith; small = omega arith }

add-Holds_example :
    Holds
      (DynamicTable.add (new_table 64) (bytes "host") host)
      64
      (fit 64 (entry (bytes "host") host ∷ []))
add-Holds_example = add-Holds (new_table 64) (bytes "host") host new_table-IsValid (omega arith)

abbrev one_entry : Table
one_entry = DynamicTable.add (new_table 64) (bytes "host") host

resize-Holds_example : Holds (DynamicTable.resize one_entry 32) 32 (fit 32 one_entry.entries)
resize-Holds_example = resize-Holds one_entry 32 add-Holds_example.valid (omega arith)

huffman_decode-huffman_encode_example : huffman_decode (huffman_encode host) ≡ host
huffman_decode-huffman_encode_example = huffman_decode-huffman_encode host host-IsClear

huffman_decode_shadowed_example :
    huffman_decode (huffman_encode (host ++ (147 ∷ []))) ≢ host ++ (147 ∷ [])
unfolding is_shadowed symbol
huffman_decode_shadowed_example =
    huffman_decode_shadowed host 147 [] host-IsClear (omega arith, tt) refl

-- An exact match in the static table, and a header that has none.
abbrev headers : List Entry
headers = entry (bytes ":method") (bytes "GET") ∷ entry (bytes ":authority") host ∷ []

headers-IsHeader : All IsHeader headers
unfolding every_clear is_clear is_shadowed symbol
headers-IsHeader = (
  record {
    name_clear = every_clear-IsClear (bytes ":method") refl;
    name_short = omega arith;
    value_clear = every_clear-IsClear (bytes "GET") refl;
    value_short = omega arith;
  },
  (
    record {
      name_clear = every_clear-IsClear (bytes ":authority") refl;
      name_short = omega arith;
      value_clear = host-IsClear;
      value_short = omega arith;
    },
    tt,
  ),
)

abbrev sender : Encoder
sender = encoder_set_max_table_size (new_encoder 4096) 1024

abbrev receiver : Decoder
receiver = new_decoder 4096

decode-encode_example :
    (decode receiver (encode sender headers).0 ≡ (some headers, told sender receiver))
    × ((encode sender headers).1.table_size_updated ≡ false)
unfolding encoder_set_max_table_size
decode-encode_example = decode-encode receiver sender headers (omega arith) headers-IsHeader
