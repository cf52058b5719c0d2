-- ===== src/WebSocket/Sha1/Padding.antt =====
-- The padding of a SHA-1 message.
use async_net.Base.{
  ℕ, zero, suc, ◌+◌, ◌-◌, ◌*◌, ◌%◌, ◌^◌, ◌<◌, ◌≡◌, refl, ap, sym, ◌∙◌, arith, List, [], ◌∷◌, ◌++◌,
}
use async_net.Base.{
  length, length-append, append-nil, append_assoc, replicate, byte_at, ◌==◌, true, false,
}
use async_net.WebSocket.Sha1.{fill, pad_message}

length-replicate : (n b : ℕ) → length (replicate n b) ≡ n
length-replicate zero b = refl
length-replicate (suc n) b = omega (arith, length-replicate n b)

fill_zeros :
    (fuel d : ℕ) (msg : List ℕ)
    → d < fuel
    → d < 64
    → (length msg + d) % 64 ≡ 56
    → fill fuel msg ≡ msg ++ replicate d 0x00
unfolding fill
fill_zeros zero d msg h small e = absurd (omega arith)
fill_zeros (suc fuel) zero msg h small e =
    let done : (length msg % 64 == 56) ≡ true = ground arith in rw done (sym (append-nil msg))
fill_zeros (suc fuel) (suc d) msg h small e =
    let on : (length msg % 64 == 56) ≡ false = ground arith in
    rw on (
      fill_zeros fuel d (msg ++ (0x00 ∷ [])) (omega arith) (omega arith)
        (omega (arith, length-append msg (0x00 ∷ [])))
      ∙ append_assoc msg (0x00 ∷ []) (replicate d 0x00))

-- The number of zeros between the mark and the length.
abbrev pub zeros : List ℕ → ℕ
zeros input = (119 - length input % 64) % 64

-- The length in bits, in eight bytes.
abbrev pub length_field : ℕ → List ℕ
length_field n =
    byte_at n 56
    ∷ byte_at n 48
    ∷ byte_at n 40
    ∷ byte_at n 32
    ∷ byte_at n 24
    ∷ byte_at n 16
    ∷ byte_at n 8
    ∷ byte_at n 0
    ∷ []

-- A message is padded as FIPS 180 says: a byte 0x80, the fewest zeros that are needed, and the
-- length in bits modulo 2^64, so that whole blocks of 64 bytes result.
pad_message_lem :
    (input : List ℕ)
    → (pad_message input
        ≡ input
          ++ (0x80 ∷ (replicate (zeros input) 0x00 ++ length_field (length input * 8 % 2 ^ 64))))
      × (zeros input < 64)
      × (length (pad_message input) % 64 ≡ 0)
unfolding pad_message
pad_message_lem input =
    let field = length_field (length input * 8 % 2 ^ 64) in
    let filled : fill 64 (input ++ (0x80 ∷ []))
        ≡ (input ++ (0x80 ∷ [])) ++ replicate (zeros input) 0x00 =
      fill_zeros 64 (zeros input) (input ++ (0x80 ∷ [])) (omega arith) (omega arith)
        (omega (arith, length-append input (0x80 ∷ []))) in
    let shape : pad_message input ≡ input ++ (0x80 ∷ (replicate (zeros input) 0x00 ++ field)) =
      ap (λ t. t ++ field) filled
      ∙ append_assoc (input ++ (0x80 ∷ [])) (replicate (zeros input) 0x00) field
      ∙ append_assoc input (0x80 ∷ []) (replicate (zeros input) 0x00 ++ field) in
    (
      shape,
      omega arith,
      omega (
        arith,
        ap length shape,
        length-append input (0x80 ∷ (replicate (zeros input) 0x00 ++ field)),
        length-append (replicate (zeros input) 0x00) field,
        length-replicate (zeros input) 0x00,
      ),
    )
