-- ===== src/Http2/Hpack/Codec/Fields.antt =====
-- One field of a header block: `hpack_decoder::decode` reads what `hpack_encoder::encode` wrote.
use async_net.Base.{ℕ, suc, ◌+◌, ◌%◌, ◌^◌, ◌≤◌, ◌<◌, ◌≡◌, refl, ap, sym, ◌∙◌}
use async_net.Base.{
  arith, List, [], ◌∷◌, ◌++◌, append_assoc, length, length-drop, drop, All, append-nil,
}
use async_net.Base.{drop-append_eq, bit_and, bit_or, third_set, ltb, lt→ltb, Bool, true}
use async_net.Base.{Bool-cases, inl, inr, some, get_elem?}
use async_net.Http2.Hpack.Int.{encode_int, decode_int}
use async_net.Http2.Hpack.Int.RoundTrip.{decode_int-encode_int, encode_int-cons}
use async_net.Http2.Hpack.Entry.{Entry}
use async_net.Http2.Hpack.Search.{find_from_exact}
use async_net.Http2.Hpack.StaticTable.{static_table}
use async_net.Http2.Hpack.DynamicTable.{Table}
use async_net.Http2.Hpack.Huffman.Decode.{IsClear}
use async_net.Http2.Hpack.Codec.{ok, encode_string, read_int, int_buf_size}
use async_net.Http2.Hpack.Codec.{find_static, encode_header, get_indexed, read_name}
use async_net.Http2.Hpack.Codec.{read_literal, read_field, Field, header, table_size}
use async_net.Http2.Hpack.Codec.Strings.{encode_int_top, read_string-encode_string}

-- A header that fits the round trip: its strings are clear of the code of `{`, and short.
pub record IsHeader (h : Entry) : Type 0 where
  pub name_clear : All IsClear h.name
  pub name_short : length h.name < 2 ^ 30
  pub value_clear : All IsClear h.value
  pub value_short : length h.value < 2 ^ 30

length-static_table : length static_table ≡ 62
unfolding static_table
length-static_table = refl

get_elem?-drop_one {ℓ} :
    {A : Type ℓ} (xs : List A) (i : ℕ) (a : A)
    → get_elem? (drop 1 xs) i ≡ some a
    → get_elem? xs (suc i) ≡ some a
get_elem?-drop_one [] i a h = h
get_elem?-drop_one (x ∷ xs) i a h = h

-- An exact match in the static table is an index by which the decoder finds the header.
static_indexed :
    (t : Table) (h : Entry) (k : ℕ)
    → find_static h.name h.value ≡ (k, true)
    → (get_indexed t k ≡ some h) × (0 < k) × (k < 62)
unfolding find_static get_indexed
static_indexed t h k e =
    let f = find_from_exact 1 0 h.name h.value (drop 1 static_table) k e in
    let there : get_elem? static_table (suc f.offset) ≡ some h =
      get_elem?-drop_one static_table f.offset h f.there in
    let same : k ≡ suc f.offset = omega (arith, f.counted) in
    let low : k < 62 =
      omega (arith, f.counted, f.inside, length-drop 1 static_table, length-static_table) in
    let inside : ltb k (length static_table) ≡ true = rw length-static_table (lt→ltb k 62 low) in
    let positive : ltb 0 k ≡ true = lt→ltb 0 k (omega arith) in
    (rw (positive, inside) (ap (get_elem? static_table) same ∙ there), omega arith, low)

read_int-encode_int :
    (value n mask : ℕ) (rest : List ℕ)
    → n < 9
    → mask + 2 ^ n ≤ 256
    → mask % 2 ^ n ≡ 0
    → value < 2 ^ 64
    → read_int (encode_int int_buf_size value n mask ++ rest) n ≡ ok (value, rest)
unfolding read_int
read_int-encode_int value n mask rest hn fits clear hv =
    let int = encode_int int_buf_size value n mask in
    let (e, pos, short) =
      decode_int-encode_int 15 value n mask rest hn fits clear hv (omega arith) in
    rw (e, read_int) (ap (λ t. ok (value, t)) (drop-append_eq int rest (length int) refl))

read_field_indexed :
    (t : Table) (h : Entry) (b : ℕ) (bs input rest : List ℕ) (k : ℕ)
    → input ≡ b ∷ bs
    → bit_and b 0x80 ≡ 0x80
    → read_int input 7 ≡ ok (k, rest)
    → 0 < k
    → get_indexed t k ≡ some h
    → read_field t input ≡ ok (header h, rest)
unfolding read_field
read_field_indexed t h b bs input rest k shape top int pos found =
    let int' : read_int (b ∷ bs) 7 ≡ ok (k, rest) = ap (λ t. read_int t 7) (sym shape) ∙ int in
    rw shape (rw top (ground (arith, int', found)))

read_field_literal :
    (t : Table) (h : Entry) (rest : List ℕ)
    → IsHeader h
    → read_field t (
        encode_int int_buf_size 0 4 0x00
        ++ ((encode_string h.name ++ encode_string h.value) ++ rest))
      ≡ ok (header h, rest)
unfolding read_field read_literal read_name read_int decode_int encode_int
read_field_literal t h rest v = rw append_assoc (
    ground (
      arith,
      read_string-encode_string h.name (encode_string h.value ++ rest) v.name_clear v.name_short,
      read_string-encode_string h.value rest v.value_clear v.value_short,
    ))

-- One header of the block.
pub read_field-encode_header :
    (t : Table) (h : Entry) (rest : List ℕ)
    → IsHeader h
    → read_field t (encode_header h ++ rest) ≡ ok (header h, rest)
unfolding encode_header
read_field-encode_header t h rest v = elim (Bool-cases (find_static h.name h.value).1) [
  | inr literal ↦ rw literal (rw append_assoc (read_field_literal t h rest v))
  | inl exact ↦
      let k = (find_static h.name h.value).0 in
      let (found, pos, low) = static_indexed t h k (ap {B = ℕ × Bool} (λ x. (k, x)) exact) in
      let (b, bs, shape, top) = encode_int_top k 0x80 (omega arith) (inl refl) in
      rw exact (
        read_field_indexed t h b (bs ++ rest) (encode_int int_buf_size k 7 0x80 ++ rest) rest k
          (ap (λ t. t ++ rest) shape) top
          (read_int-encode_int k 7 0x80 rest (omega arith) (omega arith) (omega arith)
            (omega arith))
          pos found)
]

pub read_field-ne-nil :
    (t : Table) (input : List ℕ) (f : Field) (rest : List ℕ)
    → read_field t input ≡ ok (f, rest)
    → 0 < length input
unfolding read_field
read_field-ne-nil t [] f rest h = cc
read_field-ne-nil t (b ∷ bs) f rest h = omega arith

pub encode_header_pos : (t : Table) (h : Entry) → IsHeader h → 0 < length (encode_header h)
encode_header_pos t h v =
    let one : read_field t (encode_header h) ≡ ok (header h, []) =
      ap (read_field t) (sym (append-nil (encode_header h))) ∙ read_field-encode_header t h [] v in
    read_field-ne-nil t (encode_header h) (header h) [] one

read_field_table_size :
    (t : Table) (size b : ℕ) (bs input rest : List ℕ)
    → input ≡ b ∷ bs
    → bit_and b 0x80 ≡ 0
    → bit_and b 0x40 ≡ 0
    → bit_and b 0x20 ≡ 0x20
    → read_int input 5 ≡ ok (size, rest)
    → read_field t input ≡ ok (table_size size, rest)
unfolding read_field
read_field_table_size t size b bs input rest shape top second third int =
    let int' : read_int (b ∷ bs) 5 ≡ ok (size, rest) = ap (λ t. read_int t 5) (sym shape) ∙ int in
    rw shape (rw (top, second, third) (ground (arith, int')))

pub read_field_size_update :
    (t : Table) (size : ℕ) (rest : List ℕ)
    → size < 2 ^ 64
    → read_field t (encode_int int_buf_size size 5 0x20 ++ rest) ≡ ok (table_size size, rest)
read_field_size_update t size rest h =
    let (p, bs, shape, small) = encode_int-cons 15 size 5 0x20 h (omega arith) in
    let (top, second, third) = third_set p (omega arith) in
    read_field_table_size t size (bit_or 0x20 p) (bs ++ rest) _ rest (ap (λ t. t ++ rest) shape) top
      second third
      (read_int-encode_int size 5 0x20 rest (omega arith) (omega arith) (omega arith) h)

pub length-encode_int_pos :
    (size : ℕ) → size < 2 ^ 64 → 0 < length (encode_int int_buf_size size 5 0x20)
length-encode_int_pos size h =
    let (_, pos, _) =
      decode_int-encode_int 15 size 5 0x20 [] (omega arith) (omega arith) (omega arith) h
        (omega arith) in
    pos
