-- ===== src/Http2/Hpack/Codec/Strings.antt =====
-- `decode_string` reads back what `encode_string` wrote.
use async_net.Base.{ℕ, ◌+◌, ◌%◌, ◌^◌, ◌≤◌, ◌<◌, ◌≡◌, refl, ap, sym, ◌∙◌}
use async_net.Base.{arith, List, ◌∷◌, ◌++◌, append_assoc, length, length-append, take, drop, All}
use async_net.Base.{take-append_eq, drop-append_eq, drop-drop, bit_and, bit_or, top_set, top_clear}
use async_net.Base.{
  ltb, leb, ltb_ge, leb_gt, if◌then◌else◌, ◌==◌, not, false, Bool-cases, inl, inr, ◌⊎◌,
}
use async_net.Http2.Hpack.Int.{done, encode_int, decode_int}
use async_net.Http2.Hpack.Int.RoundTrip.{decode_int-encode_int, encode_int-cons}
use async_net.Http2.Hpack.Huffman.{huffman_encode, huffman_decode, huffman_is_shorter}
use async_net.Http2.Hpack.Huffman.Encode.{huffman_is_shorter-lt}
use async_net.Http2.Hpack.Huffman.Decode.{IsClear, Clear-IsByte, huffman_decode-huffman_encode}
use async_net.Http2.Hpack.Codec.{ok, encode_string, read_string, int_buf_size}

-- A prefix of 7 bits leaves the top bit of the first byte to the mask.
pub encode_int_top :
    (value mask : ℕ)
    → value < 2 ^ 64
    → (mask ≡ 0x80) ⊎ (mask ≡ 0x00)
    → (b : ℕ) × (bs : List ℕ) × (encode_int int_buf_size value 7 mask ≡ b ∷ bs)
      × (bit_and b 0x80 ≡ mask)
encode_int_top value mask h (inl e) =
    let (p, bs, shape, small) = encode_int-cons 15 value 7 mask h (omega arith) in
    (
      bit_or mask p,
      bs,
      shape,
      ap (λ (m : ℕ). bit_and (bit_or m p) 0x80) e ∙ top_set p (omega arith) ∙ sym e,
    )
encode_int_top value mask h (inr e) =
    let (p, bs, shape, small) = encode_int-cons 15 value 7 mask h (omega arith) in
    (
      bit_or mask p,
      bs,
      shape,
      ap (λ (m : ℕ). bit_and (bit_or m p) 0x80) e ∙ top_clear p (omega arith) ∙ sym e,
    )

-- A string of `n` bytes behind its length: the test on the first byte, the length and the bytes.
read_string_found :
    (b : ℕ) (bs input raw rest : List ℕ) (c n mask : ℕ)
    → input ≡ b ∷ bs
    → bit_and b 0x80 ≡ mask
    → decode_int input 7 ≡ done c n
    → drop c input ≡ raw ++ rest
    → c + length (raw ++ rest) ≡ length input
    → length raw ≡ n
    → c ≤ 11
    → n < 2 ^ 30
    → read_string input ≡ ok (if not (mask == 0) then huffman_decode raw else raw, rest)
unfolding read_string
read_string_found b bs input raw rest c n mask shape top value cut size hn hc small =
    let value' : decode_int (b ∷ bs) 7 ≡ done c n = ap (λ t. decode_int t 7) (sym shape) ∙ value in
    let size' : c + length (raw ++ rest) ≡ length (b ∷ bs) = size ∙ ap length shape in
    let total : length (b ∷ bs) ≡ c + n + length rest = omega (arith, length-append raw rest) in
    let cut' : drop c (b ∷ bs) ≡ raw ++ rest = ap (drop c) (sym shape) ∙ cut in
    let after : drop (c + n) (b ∷ bs) ≡ rest =
      drop-drop c n (c + n) (b ∷ bs) refl
      ∙ ap (drop n) cut'
      ∙ drop-append_eq raw rest n (omega arith) in
    let taken : take n (drop c (b ∷ bs)) ≡ raw =
      ap (take n) cut' ∙ take-append_eq raw rest n (omega arith) in
    let fits : ltb (length (b ∷ bs)) ((c + n) % 2 ^ 64) ≡ false = ltb_ge _ _ (omega arith) in
    let inside : ltb (length (b ∷ bs)) (c + n) ≡ false = ltb_ge _ _ (omega arith) in
    let int : leb (2 ^ 31) (c + n) ≡ false = leb_gt _ _ (omega arith) in
    rw shape (rw (value', read_string) (rw (fits, inside, int, top, taken, after)))

read_string_raw :
    (n mask : ℕ) (raw rest : List ℕ)
    → length raw ≡ n
    → n < 2 ^ 30
    → (mask ≡ 0x80) ⊎ (mask ≡ 0x00)
    → read_string (encode_int int_buf_size n 7 mask ++ (raw ++ rest))
      ≡ ok (if not (mask == 0) then huffman_decode raw else raw, rest)
read_string_raw n mask raw rest hn small hm =
    let (b, bs, shape, top) = encode_int_top n mask (omega arith) hm in
    let fits : mask + 2 ^ 7 ≤ 256 = elim hm [ inl e ↦ omega arith | inr e ↦ omega arith ] in
    let clear : mask % 2 ^ 7 ≡ 0 = elim hm [ inl e ↦ omega arith | inr e ↦ omega arith ] in
    let (value, pos, short) =
      decode_int-encode_int 15 n 7 mask (raw ++ rest) (omega arith) fits clear (omega arith)
        (omega arith) in
    let int = encode_int int_buf_size n 7 mask in
    read_string_found b (bs ++ (raw ++ rest)) (int ++ (raw ++ rest)) raw rest (length int) n mask
      (ap (λ t. t ++ (raw ++ rest)) shape) top value
      (drop-append_eq int (raw ++ rest) (length int) refl) (sym (length-append int (raw ++ rest)))
      hn short small

-- A string is read back, with what follows it: its bytes are clear of the code of `{`, and it has
-- fewer than 2^30 of them.
pub read_string-encode_string :
    (s rest : List ℕ)
    → All IsClear s
    → length s < 2 ^ 30
    → read_string (encode_string s ++ rest) ≡ ok (s, rest)
unfolding encode_string
read_string-encode_string s rest h small = elim (Bool-cases (huffman_is_shorter s)) [
  | inl e ↦ rw e (
      rw append_assoc (
        read_string_raw (length (huffman_encode s)) 0x80 (huffman_encode s) rest refl
          (omega (arith, huffman_is_shorter-lt s (Clear-IsByte s h) e)) (inl refl)
        ∙ ap (λ t. ok (t, rest)) (huffman_decode-huffman_encode s h)))
  | inr e ↦ rw e (rw append_assoc (read_string_raw (length s) 0x00 s rest refl small (inr refl)))
]
