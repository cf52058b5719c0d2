-- ===== src/Http2/Hpack/Codec/RoundTrip.antt =====
-- `hpack_decoder::decode` gives back the headers that `hpack_encoder::encode` encoded.
use async_net.Base.{ℕ, zero, suc, ◌+◌, ◌-◌, ◌^◌, ◌≤◌, ◌<◌, ◌≡◌, refl, ap, sym, ◌∙◌}
use async_net.Base.{
  arith, List, [], ◌∷◌, ◌++◌, append_assoc, length, length-append, All, append-nil,
}
use async_net.Base.{if◌then◌else◌, false}
use async_net.Base.{Bool-cases, inl, inr, some}
use async_net.Http2.Hpack.Int.{encode_int}
use async_net.Http2.Hpack.Entry.{Entry}
use async_net.Http2.Hpack.DynamicTable
use async_net.Http2.Hpack.DynamicTable.{Table}
use async_net.Http2.Hpack.Codec.{ok, int_buf_size}
use async_net.Http2.Hpack.Codec.{encode_header, encode_headers}
use async_net.Http2.Hpack.Codec.{
  read_field, Field, header, table_size, Progress, take_field, complete,
}
use async_net.Http2.Hpack.Codec.{
  decode_loop, decode_block, decode, Decoder, add_all, block_result, Ending, Encoder, encode,
}
use async_net.Http2.Hpack.Codec.Fields.{IsHeader, read_field-encode_header, read_field-ne-nil}
use async_net.Http2.Hpack.Codec.Fields.{encode_header_pos, read_field_size_update}
use async_net.Http2.Hpack.Codec.Fields.{length-encode_int_pos}

decode_loop_step :
    (fuel : ℕ) (p : Progress) (input : List ℕ) (f : Field) (rest : List ℕ)
    → read_field p.table input ≡ ok (f, rest)
    → decode_loop (suc fuel) p input ≡ decode_loop fuel (take_field p f) rest
unfolding decode_loop
decode_loop_step fuel p [] f rest h = absurd (omega (arith, read_field-ne-nil p.table [] f rest h))
decode_loop_step fuel p (b ∷ bs) f rest h = rw (h, decode_loop)

decode_loop-nil : (fuel : ℕ) (p : Progress) → decode_loop fuel p [] ≡ (p, complete)
unfolding decode_loop
decode_loop-nil zero p = refl
decode_loop-nil (suc fuel) p = refl

with_result : Progress → List Entry → Progress × Ending
unfolding take_field
with_result p r = (record p { result = r }, complete)

with_result-cons :
    (p : Progress) (x : Entry) (hs : List Entry)
    → with_result (take_field p (header x)) ((take_field p (header x)).result ++ hs)
      ≡ with_result p (p.result ++ (x ∷ hs))
unfolding take_field with_result
with_result-cons p x hs =
    ap (λ r. (record p { result = r }, complete)) (append_assoc p.result (x ∷ []) hs)

decode_loop-encode_headers :
    (fuel : ℕ) (p : Progress) (hs : List Entry)
    → All IsHeader hs
    → length (encode_headers hs) ≤ fuel
    → decode_loop fuel p (encode_headers hs) ≡ (record p { result = p.result ++ hs }, complete)
unfolding encode_headers with_result
decode_loop-encode_headers fuel p [] v h =
    decode_loop-nil fuel p ∙ ap (with_result p) (sym (append-nil p.result))
decode_loop-encode_headers zero p (x ∷ hs) v h = absurd (
    omega
      (arith, encode_header_pos p.table x v.0, length-append (encode_header x) (encode_headers hs)))
decode_loop-encode_headers (suc fuel) p (x ∷ hs) v h =
    decode_loop_step fuel p (encode_header x ++ encode_headers hs) (header x) (encode_headers hs)
      (read_field-encode_header p.table x (encode_headers hs) v.0)
    ∙ decode_loop-encode_headers fuel (take_field p (header x)) hs v.1 (
        omega (
          arith,
          encode_header_pos p.table x v.0,
          length-append (encode_header x) (encode_headers hs),
        ))
    ∙ with_result-cons p x hs

decode_complete :
    (t : Table) (input : List ℕ) (p : Progress)
    → decode_loop (length input) (record { table = t; result = []; new_entries = [] }) input
      ≡ (p, complete)
    → decode_block t input ≡ (some p.result, add_all p.table p.new_entries)
unfolding decode_block block_result
decode_complete t input p h = ap block_result h

decode_headers :
    (fuel : ℕ) (t : Table) (hs : List Entry)
    → All IsHeader hs
    → length (encode_headers hs) ≤ fuel
    → decode_loop fuel (record { table = t; result = []; new_entries = [] }) (encode_headers hs)
      ≡ (record { table = t; result = hs; new_entries = [] }, complete)
decode_headers fuel t hs v h =
    decode_loop-encode_headers fuel (record { table = t; result = []; new_entries = [] }) hs v h

decode_block-size_update :
    (t : Table) (size : ℕ) (hs : List Entry)
    → size < 2 ^ 64
    → All IsHeader hs
    → decode_block t (encode_int int_buf_size size 5 0x20 ++ encode_headers hs)
      ≡ (some hs, DynamicTable.resize t size)
unfolding add_all take_field
decode_block-size_update t size hs h v =
    let int = encode_int int_buf_size size 5 0x20 in
    let p : Progress = record { table = t; result = []; new_entries = [] } in
    let long = length-append int (encode_headers hs) in
    let pos = length-encode_int_pos size h in
    let fuel = length int - 1 + length (encode_headers hs) in
    let enough : length (int ++ encode_headers hs) ≡ suc fuel = omega (arith, long, pos) in
    decode_complete t (int ++ encode_headers hs)
      (record { table = DynamicTable.resize t size; result = hs; new_entries = [] })
      (ap (λ f. decode_loop f p (int ++ encode_headers hs)) enough
        ∙ decode_loop_step fuel p (int ++ encode_headers hs) (table_size size) (encode_headers hs)
            (read_field_size_update t size (encode_headers hs) h)
        ∙ decode_headers fuel (DynamicTable.resize t size) hs v (omega arith))

decode_block-encode_headers :
    (t : Table) (hs : List Entry)
    → All IsHeader hs
    → decode_block t (encode_headers hs) ≡ (some hs, t)
unfolding add_all
decode_block-encode_headers t hs v =
    decode_complete t (encode_headers hs) (record { table = t; result = hs; new_entries = [] })
      (decode_headers (length (encode_headers hs)) t hs v (omega arith))

-- What a decoder keeps of an encoder's new size limit.
pub told : Encoder → Decoder → Decoder
told e d =
    if e.table_size_updated
    then record d { dynamic_table = DynamicTable.resize d.dynamic_table e.max_table_size }
    else d

-- A decoder gives back the headers that an encoder wrote, in order. Its dynamic table is as before,
-- since the encoder adds nothing to it, but for the encoder's new size limit, to which it is resized
-- where the encoder has one to report; the encoder reports it once. The strings of the headers are
-- clear of the bytes that the Huffman table confuses, and have fewer than 2^30 bytes.
pub decode-encode :
    (d : Decoder) (e : Encoder) (hs : List Entry)
    → e.max_table_size < 2 ^ 64
    → All IsHeader hs
    → (decode d (encode e hs).0 ≡ (some hs, told e d))
      × ((encode e hs).1.table_size_updated ≡ false)
unfolding encode decode told
decode-encode d e hs h v = elim (Bool-cases e.table_size_updated) [
  | inl new ↦
      rw new (rw (decode_block-size_update d.dynamic_table e.max_table_size hs h v) refl, refl)
  | inr old ↦ rw old (rw (decode_block-encode_headers d.dynamic_table hs v) refl, refl)
]
