-- ===== src/Http2/Hpack/Huffman/Shadowed.antt =====
-- The code that the table gives to `{` is the beginning of sixteen other codes: a string with such a
-- byte is not read back.
use async_net.Base.{ℕ, ◌+◌, ◌-◌, ◌*◌, ◌/◌, ◌%◌, ◌^◌, ◌≤◌, ◌≡◌, ◌≢◌, refl, ap, sym, ◌∙◌, arith}
use async_net.Base.{
  List, [], ◌∷◌, ◌++◌, append_assoc, append-nil, All, All-append, IsByte, true, false,
}
use async_net.Base.{some, Option-cases, inl, inr, ◌==◌, ==_iff, leb, Bool-cases, ◌⊎◌}
use async_net.Http2.Hpack.HuffmanTable.{HuffSym}
use async_net.Http2.Hpack.Huffman.{Decoder, symbol, decode_bit, decode_bytes, finish}
use async_net.Http2.Hpack.Huffman.{huffman_encode, huffman_decode, match_symbol}
use async_net.Http2.Hpack.Huffman.BitString.{bits, bits-add}
use async_net.Http2.Hpack.Huffman.Encode.{codes, codes-cons, huffman_encode-stream}
use async_net.Http2.Hpack.Huffman.PrefixCode.{is_shadowed, no_prefix}
use async_net.Http2.Hpack.Huffman.Decode.{
  decode_bits, decode_bits-append, decode_bits_code, holding,
}
use async_net.Http2.Hpack.Huffman.Decode.{decode_bits-codes, decode_bytes-decode_bits, IsClear}
use async_net.Http2.Hpack.Huffman.Decode.{huffman_decode-some, none-ne-some, Clear-IsByte}

-- What is decoded is kept.
bit_grows :
    (d d' : Decoder) (b : ℕ)
    → decode_bit d b ≡ some d'
    → (more : List ℕ) × (d'.result ≡ d.result ++ more)
unfolding decode_bit
bit_grows d d' b h =
    elim (Option-cases (match_symbol (d.code * 2 % 2 ^ 32 + b) (d.code_bits + 1))) [
      | inl e ↦ ([], ground (arith, e, append-nil d.result))
      | inr (ch, e) ↦ (ch ∷ [], ground (arith, e))
    ]

bits_grow :
    (d d' : Decoder) (bs : List ℕ)
    → decode_bits d bs ≡ some d'
    → (more : List ℕ) × (d'.result ≡ d.result ++ more)
unfolding decode_bits
bits_grow d d' [] h = ([], ground (arith, append-nil d.result))
bits_grow d d' (b ∷ bs) h = elim (Option-cases (decode_bit d b)) [
  | inl e ↦ absurd (none-ne-some (rw (e, decode_bits) at h))
  | inr (d₁, e) ↦
      let (m, p) = bit_grows d d₁ b e in
      let (n, q) = bits_grow d₁ d' bs (rw (e, decode_bits) at h) in
      (m ++ n, q ∙ ap (λ t. t ++ n) p ∙ append_assoc d.result m n)
]

prefix_of :
    (s t : HuffSym)
    → no_prefix s t ≡ false
    → (s.bits ≤ t.bits) × (t.code / 2 ^ (t.bits - s.bits) ≡ s.code)
prefix_of s t h =
    both (Bool-cases (leb s.bits t.bits)) (Bool-cases (t.code / 2 ^ (t.bits - s.bits) == s.code))
  where
    both :
        (leb s.bits t.bits ≡ true) ⊎ (leb s.bits t.bits ≡ false)
        → ((t.code / 2 ^ (t.bits - s.bits) == s.code) ≡ true)
          ⊎ ((t.code / 2 ^ (t.bits - s.bits) == s.code) ≡ false)
        → (s.bits ≤ t.bits) × (t.code / 2 ^ (t.bits - s.bits) ≡ s.code)
    both (inl p) (inl q) = (ground arith, (==_iff _ _).0 q)
    both (inl p) (inr q) = cc (rw (p, q) at h)
    both (inr p) q = cc (rw p at h)

shadowed_split :
    (ch : ℕ)
    → is_shadowed ch ≡ true
    → (bits (symbol ch).bits (symbol ch).code
        ≡ bits (symbol b'{').bits (symbol b'{').code
          ++ bits ((symbol ch).bits - (symbol b'{').bits) (symbol ch).code)
      × (ch ≢ b'{')
unfolding is_shadowed
shadowed_split ch h =
    let (le, cut) = prefix_of (symbol b'{') (symbol ch) (ground arith) in
    (
      bits-add (symbol b'{').bits ((symbol ch).bits - (symbol b'{').bits) (symbol ch).bits
            (symbol ch).code (omega arith)
          ∙ ap
              (λ t.
                bits (symbol b'{').bits t
                ++ bits ((symbol ch).bits - (symbol b'{').bits) (symbol ch).code)
              cut,
      ground arith,
    )

brace_IsClear : is_shadowed b'{' ≡ false
unfolding is_shadowed
brace_IsClear = refl

differs :
    (pre more post : List ℕ) (ch : ℕ)
    → ch ≢ b'{'
    → (pre ++ (b'{' ∷ [])) ++ more ≢ pre ++ (ch ∷ post)
differs [] more post ch ne e = ne (cc)
differs (x ∷ pre) more post ch ne e = differs pre more post ch ne (cc)

empty_differs : (pre post : List ℕ) (ch : ℕ) → [] ≢ pre ++ (ch ∷ post)
empty_differs [] post ch e = cc
empty_differs (x ∷ pre) post ch e = cc

finish_cases : (d : Decoder) → (finish d ≡ []) ⊎ (finish d ≡ d.result)
unfolding finish
finish_cases d = ground arith

decode_cases :
    (input : List ℕ)
    → (huffman_decode input ≡ [])
      ⊎ ((d : Decoder) × (decode_bytes (holding [] 0 0) input ≡ some d)
          × (huffman_decode input ≡ d.result))
decode_cases input = elim (Option-cases (decode_bytes (holding [] 0 0) input)) [
  | inl e ↦ inl (unfold huffman_decode in rw (e, huffman_decode))
  | inr (d, e) ↦ elim (finish_cases d) [
    | inl f ↦ inl (huffman_decode-some input e ∙ f)
    | inr f ↦ inr (d, e, huffman_decode-some input e ∙ f)
  ]
]

codes-append : (xs ys : List ℕ) → codes (xs ++ ys) ≡ codes xs ++ codes ys
unfolding codes
codes-append [] ys = refl
codes-append (x ∷ xs) ys =
    ap (λ t. bits (symbol x).bits (symbol x).code ++ t) (codes-append xs ys)
    ∙ sym (append_assoc (bits (symbol x).bits (symbol x).code) (codes xs) (codes ys))

-- After the clear bytes `pre` the decoder takes the beginning of the code of `ch` for a `{`.
brace_read :
    (pre : List ℕ) (ch : ℕ) (post ones : List ℕ)
    → All IsClear pre
    → is_shadowed ch ≡ true
    → (rest : List ℕ) × (decode_bits (holding [] 0 0) (codes (pre ++ (ch ∷ post)) ++ ones)
        ≡ decode_bits (holding (pre ++ (b'{' ∷ [])) 0 0) rest)
brace_read pre ch post ones hp sh =
    let tail = bits ((symbol ch).bits - (symbol b'{').bits) (symbol ch).code in
    let rest = tail ++ (codes post ++ ones) in
    (
      rest,
      rw
          (
            codes-append,
            append_assoc (codes pre) (codes (ch ∷ post)) ones,
            decode_bits-codes pre [] (codes (ch ∷ post) ++ ones) hp,
            codes-cons ch post,
            (shadowed_split ch sh).0,
          )
          (ap (decode_bits (holding pre 0 0)) (simp append_assoc)
            ∙ decode_bits-append (holding pre 0 0) (bits (symbol b'{').bits (symbol b'{').code) rest
                (decode_bits_code b'{' pre (omega arith) brace_IsClear)),
    )

-- A string with a byte that the code of `{` shadows is not read back: the decoder takes the
-- beginning of its code for a `{`.
pub huffman_decode_shadowed :
    (pre : List ℕ) (ch : ℕ) (post : List ℕ)
    → All IsClear pre
    → All IsByte (ch ∷ post)
    → is_shadowed ch ≡ true
    → huffman_decode (huffman_encode (pre ++ (ch ∷ post))) ≢ pre ++ (ch ∷ post)
huffman_decode_shadowed pre ch post hp hq sh same =
    let input = pre ++ (ch ∷ post) in
    let (k, hk, written) =
      huffman_encode-stream input (All-append IsByte pre (ch ∷ post) (Clear-IsByte pre hp) hq) in
    let (rest, taken) = brace_read pre ch post (bits k (2 ^ k - 1)) hp sh in
    elim (decode_cases (huffman_encode input)) [
      | inl e ↦ empty_differs pre post ch (sym e ∙ same)
      | inr (d, e, r) ↦
          let (more, grown) = bits_grow (holding (pre ++ (b'{' ∷ [])) 0 0) d rest (
            sym taken
            ∙ ap (decode_bits (holding [] 0 0)) (sym written)
            ∙ sym (decode_bytes-decode_bits (holding [] 0 0) (huffman_encode input))
            ∙ e) in
          differs pre more post ch (shadowed_split ch sh).1 (sym grown ∙ sym r ∙ same)
    ]
