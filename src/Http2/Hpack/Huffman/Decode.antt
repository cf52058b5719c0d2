-- ===== src/Http2/Hpack/Huffman/Decode.antt =====
-- `huffman_decode` reads back what `huffman_encode` wrote of bytes that `{` does not shadow.
use async_net.Base.{ℕ, zero, suc, ◌+◌, ◌-◌, ◌*◌, ◌/◌, ◌%◌, ◌^◌, ◌≤◌, ◌<◌, ◌≡◌, refl, ap, sym, ◌∙◌}
use async_net.Base.{
  arith, List, [], ◌∷◌, ◌++◌, append_assoc, append-nil, All, IsByte, Bool, Option, none, some,
}
use async_net.Base.{
  all_below, all_below_sound, ltb, ltb_ge, ◌||◌, ◌==◌, true, false, bit_and, Option-cases, inl, inr,
}
use native.Mathlib.Nat.{pow-le-pow_right, one-le-pow}
use async_net.Http2.Hpack.Huffman.{Decoder, symbol, decode_bit, decode_byte, decode_bytes, finish}
use async_net.Http2.Hpack.Huffman.{huffman_encode, huffman_decode, match_symbol}
use async_net.Http2.Hpack.Huffman.BitString.{bits, stream, half-half, bits-add}
use async_net.Http2.Hpack.Huffman.Encode.{codes, symbol_fits, huffman_encode-stream}
use async_net.Http2.Hpack.Huffman.PrefixCode.{is_shadowed, match_symbol_prefix, match_symbol_whole}

abbrev pub holding : List ℕ → ℕ → ℕ → Decoder
holding result code code_bits = record { result = result; code = code; code_bits = code_bits }

-- The decoder on a bit stream.
unfoldable pub decode_bits : Decoder → List ℕ → Option Decoder
decode_bits d [] = some d
decode_bits d (b ∷ bs) = elim (decode_bit d b) [ none ↦ none | some d' ↦ decode_bits d' bs ]

pub none-ne-some {ℓ} : {A : Type ℓ} {a : A} → none ≡ some a → ⊥
none-ne-some h = cc

pub decode_bits-append :
    (d : Decoder) (xs ys : List ℕ) {d' : Decoder}
    → decode_bits d xs ≡ some d'
    → decode_bits d (xs ++ ys) ≡ decode_bits d' ys
unfolding decode_bits
decode_bits-append d [] ys h = ground (arith, h)
decode_bits-append d (x ∷ xs) ys h = elim (Option-cases (decode_bit d x)) [
  | inl e ↦ absurd (none-ne-some (rw (e, decode_bits) at h))
  | inr (d₁, e) ↦ rw (e, decode_bits) (decode_bits-append d₁ xs ys (rw (e, decode_bits) at h))
]

bit_none :
    (result : List ℕ) (y n : ℕ)
    → y < 2 ^ 30
    → n < 30
    → match_symbol y (suc n) ≡ none
    → decode_bit (holding result (y / 2) n) (y % 2) ≡ some (holding result y (suc n))
unfolding decode_bit
bit_none result y n hy hn e =
    let whole : y / 2 * 2 % 2 ^ 32 + y % 2 ≡ y = omega arith in
    let next : n + 1 ≡ suc n = omega arith in
    rw (whole, next, e, decode_bit) (rw (whole, next, ltb_ge 30 (suc n) (omega arith)))

bit_some :
    (result : List ℕ) (y n ch : ℕ)
    → y < 2 ^ 30
    → match_symbol y (suc n) ≡ some ch
    → decode_bit (holding result (y / 2) n) (y % 2) ≡ some (holding (result ++ (ch ∷ [])) 0 0)
unfolding decode_bit
bit_some result y n ch hy e =
    let whole : y / 2 * 2 % 2 ^ 32 + y % 2 ≡ y = omega arith in
    let next : n + 1 ≡ suc n = omega arith in rw (whole, next, e, decode_bit)

-- Bits of which no beginning is a code: they are kept.
walk :
    (n y : ℕ) (result : List ℕ)
    → n ≤ 30
    → y < 2 ^ n
    → y < 2 ^ 30
    → ((m j : ℕ) → m + j ≡ n → match_symbol (y / 2 ^ j) m ≡ none)
    → decode_bits (holding result 0 0) (bits n y) ≡ some (holding result y n)
unfolding bits decode_bits
walk zero y result hn hy fits unmatched = ap (λ (t : ℕ). some (holding result t 0)) (omega arith)
walk (suc n) y result hn hy fits unmatched =
    let before =
      walk n (y / 2) result (omega arith) (omega arith) (omega arith)
        (λ m j e. rw (half-half y j) (unmatched m (suc j) (omega arith))) in
    let last : match_symbol y (suc n) ≡ none =
      let uncut : y / 2 ^ 0 ≡ y = omega arith in rw uncut at (unmatched (suc n) 0 (omega arith)) in
    decode_bits-append (holding result 0 0) (bits n (y / 2)) (y % 2 ∷ []) before
    ∙ rw (bit_none result y n fits (omega arith) last, decode_bits)

below_30 : (b y : ℕ) → b ≤ 30 → y < 2 ^ b → y < 2 ^ 30
below_30 b y hb hy = omega (arith, pow-le-pow_right {n = 2} (omega arith) {i = b} {j = 30} hb)

-- A code of `b` bits of which no shorter beginning is a code.
decode_bits_symbol :
    (b code ch : ℕ) (result : List ℕ)
    → 0 < b
    → b ≤ 30
    → code < 2 ^ b
    → ((n : ℕ) → n < b → match_symbol (code / 2 ^ (b - n)) n ≡ none)
    → match_symbol code b ≡ some ch
    → decode_bits (holding result 0 0) (bits b code) ≡ some (holding (result ++ (ch ∷ [])) 0 0)
unfolding bits decode_bits
decode_bits_symbol zero code ch result pos hb hc unmatched e = absurd (omega arith)
decode_bits_symbol (suc n) code ch result pos hb hc unmatched e =
    let before =
      walk n (code / 2) result (omega arith) (omega arith)
        (below_30 n (code / 2) (omega arith) (omega arith))
        (λ m j sum.
          let cut : suc n - m ≡ suc j = omega arith in
          rw (half-half code j) (rw cut at (unmatched m (omega arith)))) in
    decode_bits-append (holding result 0 0) (bits n (code / 2)) (code % 2 ∷ []) before
    ∙ rw (bit_some result code n ch (below_30 (suc n) code hb hc) e, decode_bits)

-- The code of a byte that `{` does not shadow, from the start: the byte.
pub decode_bits_code :
    (ch : ℕ) (result : List ℕ)
    → ch < 256
    → is_shadowed ch ≡ false
    → decode_bits (holding result 0 0) (bits (symbol ch).bits (symbol ch).code)
      ≡ some (holding (result ++ (ch ∷ [])) 0 0)
decode_bits_code ch result h ok =
    let (fits, short, pos) = symbol_fits ch h in
    decode_bits_symbol (symbol ch).bits (symbol ch).code ch result pos short fits
      (λ n lt. match_symbol_prefix ch n h ok lt) (match_symbol_whole ch h ok)

pub decode_bits-codes :
    (input result rest : List ℕ)
    → All (λ ch. (ch < 256) × (is_shadowed ch ≡ false)) input
    → decode_bits (holding result 0 0) (codes input ++ rest)
      ≡ decode_bits (holding (result ++ input) 0 0) rest
unfolding codes
decode_bits-codes [] result rest h = rw append-nil
decode_bits-codes (ch ∷ input) result rest h = rw (append_assoc) (
    decode_bits-append (holding result 0 0) (bits (symbol ch).bits (symbol ch).code)
      (codes input ++ rest) (decode_bits_code ch result h.0.0 h.0.1)
    ∙ decode_bits-codes input (result ++ (ch ∷ [])) rest h.1
    ∙ ap (λ t. decode_bits (holding t 0 0) rest) (append_assoc result (ch ∷ []) input))

-- Up to 7 ones begin no code that is so short, and `finish` takes them for padding.
ones_unmatched : ℕ → ℕ → Bool
ones_unmatched m j = elim (match_symbol ((2 ^ (m + j) - 1) / 2 ^ j) m) [
  | none ↦ true
  | some t ↦ false
]

ones_table : all_below 8 (λ m. all_below 8 (λ j. ones_unmatched m j || ltb 7 (m + j))) ≡ true
unfolding all_below ones_unmatched match_symbol
ones_table = refl

decode_bits_ones :
    (k : ℕ) (result : List ℕ)
    → k < 8
    → decode_bits (holding result 0 0) (bits k (2 ^ k - 1)) ≡ some (holding result (2 ^ k - 1) k)
decode_bits_ones k result h =
    walk k (2 ^ k - 1) result (omega arith) (omega (arith, one-le-pow k 2 (omega arith)))
      (below_30 k (2 ^ k - 1) (omega arith) (omega (arith, one-le-pow k 2 (omega arith))))
      (λ m j e. rw e at (
        none_of_test m j
          (all_below_sound 8 (λ j. ones_unmatched m j || ltb 7 (m + j)) j
            (all_below_sound 8 (λ m. all_below 8 (λ j. ones_unmatched m j || ltb 7 (m + j))) m
              ones_table (omega arith))
            (omega arith))
          (omega arith)))
  where
    none_of_test :
        (m j : ℕ)
        → ones_unmatched m j || ltb 7 (m + j) ≡ true
        → m + j < 8
        → match_symbol ((2 ^ (m + j) - 1) / 2 ^ j) m ≡ none
    none_of_test m j t lt = unfold ones_unmatched in ground arith

mask_table : all_below 8 (λ k. bit_and (2 ^ k - 1) (2 ^ k - 1) == 2 ^ k - 1) ≡ true
unfolding all_below
mask_table = refl

finish_ones : (k : ℕ) (result : List ℕ) → k < 8 → finish (holding result (2 ^ k - 1) k) ≡ result
unfolding finish
finish_ones k result h =
    let masked =
      all_below_sound 8 (λ k. bit_and (2 ^ k - 1) (2 ^ k - 1) == 2 ^ k - 1) k mask_table h in
    rw (ltb_ge 7 k (omega arith), masked)

decode_byte-decode_bits :
    (left : ℕ) (d : Decoder) (b : ℕ) → decode_byte left d b ≡ decode_bits d (bits left b)
unfolding decode_byte bits decode_bits
decode_byte-decode_bits zero d b = refl
decode_byte-decode_bits (suc left) d b = elim (Option-cases (decode_bit d (b / 2 ^ left % 2))) [
  | inl e ↦ rw (bits-add 1 left (suc left) b (omega arith)) (rw (e, decode_byte, decode_bits))
  | inr (d', e) ↦
      rw (bits-add 1 left (suc left) b (omega arith))
        (rw (e, decode_byte, decode_bits) (decode_byte-decode_bits left d' b))
]

decode_bits-append_none :
    (d : Decoder) (xs ys : List ℕ) → decode_bits d xs ≡ none → decode_bits d (xs ++ ys) ≡ none
unfolding decode_bits
decode_bits-append_none d [] ys h = absurd (none-ne-some (sym h))
decode_bits-append_none d (x ∷ xs) ys h = elim (Option-cases (decode_bit d x)) [
  | inl e ↦ rw (e, decode_bits)
  | inr (d₁, e) ↦ rw (e, decode_bits) (decode_bits-append_none d₁ xs ys (rw (e, decode_bits) at h))
]

-- The bytes of the input are its bit stream.
pub decode_bytes-decode_bits :
    (d : Decoder) (input : List ℕ) → decode_bytes d input ≡ decode_bits d (stream input)
unfolding decode_bytes stream
decode_bytes-decode_bits d [] = unfold decode_bits in refl
decode_bytes-decode_bits d (b ∷ bs) = elim (Option-cases (decode_bits d (bits 8 b))) [
  | inl e ↦ rw (
    decode_byte-decode_bits 8 d b,
    e,
    decode_bits-append_none d (bits 8 b) (stream bs) e,
    decode_bytes,
  )
  | inr (d', e) ↦
      rw
        (
          decode_byte-decode_bits 8 d b,
          e,
          decode_bits-append d (bits 8 b) (stream bs) e,
          decode_bytes,
        )
        (decode_bytes-decode_bits d' bs)
]

pub huffman_decode-some :
    (input : List ℕ) {d : Decoder}
    → decode_bytes (holding [] 0 0) input ≡ some d
    → huffman_decode input ≡ finish d
unfolding huffman_decode
huffman_decode-some input h = rw (h, huffman_decode)

abbrev pub IsClear : ℕ → Type 0
IsClear ch = (ch < 256) × (is_shadowed ch ≡ false)

pub Clear-IsByte : (input : List ℕ) → All IsClear input → All IsByte input
Clear-IsByte [] h = tt
Clear-IsByte (ch ∷ input) h = (h.0.0, Clear-IsByte input h.1)

-- `huffman_decode` reads back every string of bytes that `huffman_encode` encoded, if the code of
-- `{` in the table shadows none of them.
pub huffman_decode-huffman_encode :
    (input : List ℕ) → All IsClear input → huffman_decode (huffman_encode input) ≡ input
huffman_decode-huffman_encode input h =
    let (k, hk, written) = huffman_encode-stream input (Clear-IsByte input h) in
    huffman_decode-some (huffman_encode input) (
      decode_bytes-decode_bits (holding [] 0 0) (huffman_encode input)
      ∙ rw written
          (decode_bits-codes input [] (bits k (2 ^ k - 1)) h ∙ decode_bits_ones k input hk))
    ∙ finish_ones k input hk
