-- ===== src/Http2/Hpack/Huffman/Encode.antt =====
-- The bit stream that `huffman_encode` writes: the codes of the input, then ones up to a byte.
use async_net.Base.{ℕ, zero, suc, ◌+◌, ◌-◌, ◌*◌, ◌/◌, ◌%◌, ◌^◌, ◌≤◌, ◌<◌, ◌≡◌, refl, ap, sym, ◌∙◌}
use async_net.Base.{arith, List, [], ◌∷◌, ◌++◌, append_assoc, append-nil, All, IsByte, byte_at}
use async_net.Base.{all_below, all_below_sound, ltb, leb, ◌&&◌, true, length, length-append, ltb→lt}
use async_net.Http2.Hpack.Huffman.{
  symbol, emit, push_code, pad, encode_from, huffman_encode, count_bits,
}
use async_net.Http2.Hpack.Huffman.{huffman_is_shorter}
use async_net.Http2.Hpack.Huffman.BitString.{
  bits, stream, stream-append, bits-mod, bits-shift, bits_byte, length-bits,
}
use native.Mathlib.Decide.{dec_lt}
use native.Mathlib.Nat.{one-le-pow}

-- A code has the number of bits that the table says, 1 to 30.
fits_table :
    all_below 256 (λ ch.
      ltb (symbol ch).code (2 ^ (symbol ch).bits)
      && (leb (symbol ch).bits 30 && ltb 0 (symbol ch).bits))
    ≡ true
unfolding all_below symbol
fits_table = refl

pub symbol_fits :
    (ch : ℕ)
    → ch < 256
    → ((symbol ch).code < 2 ^ (symbol ch).bits) × ((symbol ch).bits ≤ 30) × (0 < (symbol ch).bits)
symbol_fits ch h =
    let checked =
      all_below_sound 256
        (λ ch.
          ltb (symbol ch).code (2 ^ (symbol ch).bits)
          && (leb (symbol ch).bits 30 && ltb 0 (symbol ch).bits))
        ch fits_table h in
    ground arith

unfoldable pub codes : List ℕ → List ℕ
unfolding bits
codes [] = []
codes (ch ∷ input) = bits (symbol ch).bits (symbol ch).code ++ codes input

emit_small : (fuel buf c : ℕ) → c < 8 → emit fuel buf c ≡ ([], c)
unfolding emit
emit_small zero buf c h = refl
emit_small (suc fuel) buf c h = ground arith

emit_step :
    (fuel buf c : ℕ)
    → 8 ≤ c
    → emit (suc fuel) buf c
      ≡ (byte_at buf (c - 8) ∷ (emit fuel buf (c - 8)).0, (emit fuel buf (c - 8)).1)
unfolding emit
emit_step fuel buf c h = ground arith

-- What `emit` writes and what it leaves are the bits that it was given; it leaves fewer than 8.
emit-stream :
    (fuel buf c : ℕ)
    → c ≤ fuel
    → (stream (emit fuel buf c).0 ++ bits (emit fuel buf c).1 buf ≡ bits c buf)
      × ((emit fuel buf c).1 < 8)
unfolding stream
emit-stream zero buf c h = rw (emit_small zero buf c (omega arith)) (refl, omega arith)
emit-stream (suc fuel) buf c h = elim (dec_lt c 8) [
  | yes small ↦ rw (emit_small (suc fuel) buf c small) (refl, small)
  | no big ↦
      let rest = emit-stream fuel buf (c - 8) (omega arith) in
      let whole : 8 + (c - 8) ≡ c = omega arith in
      rw (emit_step fuel buf c (omega arith), append_assoc, rest.0)
        (sym (bits_byte (c - 8) buf) ∙ ap (λ t. bits t buf) whole, rest.1)
]

pad_lem :
    (buf c : ℕ) → 0 < c → pad buf c ≡ ((buf * 2 ^ (8 - c) % 2 ^ 64 + (2 ^ (8 - c) - 1)) % 256) ∷ []
unfolding pad
pad_lem buf c h = ground arith

-- The padding completes the byte with ones.
pad-stream :
    (buf c : ℕ)
    → c < 8
    → (k : ℕ) × (k < 8) × (stream (pad buf c) ≡ bits c buf ++ bits k (2 ^ k - 1))
unfolding stream
pad-stream buf zero h = (0, omega arith, unfold pad in refl)
pad-stream buf (suc c) h =
    let k = 8 - suc c in
    let e : suc c + k ≡ 8 = omega arith in
    (
      k,
      omega arith,
      rw (pad_lem buf (suc c) (omega arith), append-nil)
          (bits-mod 8 0 8 (buf * 2 ^ k % 2 ^ 64 + (2 ^ k - 1)) refl
            ∙ ap (λ t. bits t (buf * 2 ^ k % 2 ^ 64 + (2 ^ k - 1))) (sym e)
            ∙ bits-shift (suc c) k 56 64 buf (2 ^ k - 1) (omega arith)
                (omega (arith, one-le-pow k 2 (omega arith)))),
    )

encode_from-nil : (buf c : ℕ) → encode_from buf c [] ≡ pad buf c
unfolding encode_from
encode_from-nil buf c = refl

encode_from-cons :
    (buf c ch : ℕ) (input : List ℕ)
    → encode_from buf c (ch ∷ input)
      ≡ (emit (c + (symbol ch).bits) (push_code buf (symbol ch)) (c + (symbol ch).bits)).0
        ++ encode_from
            (push_code buf (symbol ch))
            (emit (c + (symbol ch).bits) (push_code buf (symbol ch)) (c + (symbol ch).bits)).1
            input
unfolding encode_from
encode_from-cons buf c ch input = refl

pub codes-cons :
    (ch : ℕ) (input : List ℕ)
    → codes (ch ∷ input) ≡ bits (symbol ch).bits (symbol ch).code ++ codes input
unfolding codes
codes-cons ch input = refl

-- One byte of the input: its code joins the pending bits, and the whole bytes go out.
encode_from_step :
    (buf c ch : ℕ) (input t : List ℕ)
    → c < 8
    → ch < 256
    → (let s = symbol ch in
        let buf' = push_code buf s in
        let r = (emit (c + s.bits) buf' (c + s.bits)).1 in
        stream (encode_from buf' r input) ≡ bits r buf' ++ (codes input ++ t))
    → stream (encode_from buf c (ch ∷ input)) ≡ bits c buf ++ (codes (ch ∷ input) ++ t)
encode_from_step buf c ch input t h b rest =
    let s = symbol ch in
    let fits = symbol_fits ch b in
    let out = emit-stream (c + s.bits) (push_code buf s) (c + s.bits) (omega arith) in
    rw
      (
        encode_from-cons buf c ch input,
        stream-append,
        rest,
        ← append_assoc,
        out.0,
        bits-shift c s.bits (64 - c - s.bits) 64 buf s.code (omega arith) fits.0,
        codes-cons ch input,
      )
      (simp append_assoc)

-- The loop of `huffman_encode`, with fewer than 8 bits pending.
encode_from-stream :
    (buf c : ℕ) (input : List ℕ)
    → c < 8
    → All IsByte input
    → (k : ℕ) × (k < 8)
      × (stream (encode_from buf c input) ≡ bits c buf ++ (codes input ++ bits k (2 ^ k - 1)))
unfolding codes
encode_from-stream buf c [] h b = let p = pad-stream buf c h in (p.0, p.1, rw (encode_from-nil) p.2)
encode_from-stream buf c (ch ∷ input) h b =
    let s = symbol ch in
    let buf' = push_code buf s in
    let out = emit-stream (c + s.bits) buf' (c + s.bits) (omega arith) in
    let rest = encode_from-stream buf' (emit (c + s.bits) buf' (c + s.bits)).1 input out.1 b.1 in
    (rest.0, rest.1, encode_from_step buf c ch input (bits rest.0 (2 ^ rest.0 - 1)) h b.0 rest.2)

-- The bits of the output are the codes of the input and then fewer than 8 ones.
pub huffman_encode-stream :
    (input : List ℕ)
    → All IsByte input
    → (k : ℕ) × (k < 8) × (stream (huffman_encode input) ≡ codes input ++ bits k (2 ^ k - 1))
unfolding huffman_encode
huffman_encode-stream input b = unfold bits in encode_from-stream 0 0 input (omega arith) b

length-stream : (xs : List ℕ) → length (stream xs) ≡ 8 * length xs
unfolding stream
length-stream [] = refl
length-stream (x ∷ xs) =
    omega (arith, length-append (bits 8 x) (stream xs), length-bits 8 x, length-stream xs)

length-codes : (input : List ℕ) → length (codes input) ≡ count_bits input
unfolding codes count_bits
length-codes [] = refl
length-codes (ch ∷ input) =
    let s = symbol ch in
    omega (
      arith,
      length-append (bits s.bits s.code) (codes input),
      length-bits s.bits s.code,
      length-codes input,
    )

-- What `huffman_is_shorter` says: the encoding has fewer bytes than the input.
pub huffman_is_shorter-lt :
    (input : List ℕ)
    → All IsByte input
    → huffman_is_shorter input ≡ true
    → length (huffman_encode input) < length input
huffman_is_shorter-lt input b h =
    let (k, hk, e) = huffman_encode-stream input b in
    let whole : 8 * length (huffman_encode input)
        ≡ length (codes input) + length (bits k (2 ^ k - 1)) =
      sym (length-stream (huffman_encode input))
      ∙ ap length e
      ∙ length-append (codes input) (bits k (2 ^ k - 1)) in
    let short : (count_bits input + 7) / 8 < length input =
      unfold huffman_is_shorter in ltb→lt _ _ h in
    omega (arith, whole, short, length-bits k (2 ^ k - 1), length-codes input)
