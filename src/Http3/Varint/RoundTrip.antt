-- ===== src/Http3/Varint/RoundTrip.antt =====
-- `decode_varint` reads back what `encode_varint` wrote.
use async_net.Base.{ℕ, ◌+◌, ◌*◌, ◌/◌, ◌%◌, ◌^◌, ◌≤◌, ◌<◌, ◌≡◌, refl, arith, List, [], ◌∷◌, ◌++◌}
use async_net.Base.{some, bit_and, bit_or, ltb, lt→ltb, length, byte_at, true, Bool-cases, inl, inr}
use async_net.Base.{and_0x3f, or_0x40, or_0x80, or_0xc0}
use async_net.Http3.Varint.{varint, decode_varint}

-- The four forms of an integer.
pub data Form (v : ℕ) : Type 0 where
  one : v < 64 → varint v ≡ v ∷ [] → Form v
  two : 64 ≤ v → v < 16384 → varint v ≡ (v / 2 ^ 8 + 64) ∷ byte_at v 0 ∷ [] → Form v
  four :
      16384 ≤ v
      → v < 1073741824
      → varint v ≡ (v / 2 ^ 24 + 128) ∷ byte_at v 16 ∷ byte_at v 8 ∷ byte_at v 0 ∷ []
      → Form v
  eight :
      1073741824 ≤ v
      → varint v
        ≡ (v / 2 ^ 56 + 192)
          ∷ byte_at v 48
          ∷ byte_at v 40
          ∷ byte_at v 32
          ∷ byte_at v 24
          ∷ byte_at v 16
          ∷ byte_at v 8
          ∷ byte_at v 0
          ∷ []
      → Form v

pub varint-Form : (v : ℕ) → v < 2 ^ 62 → Form v
unfolding varint
varint-Form v h = elim (Bool-cases (ltb v 64)) [
  | inl a ↦ one (ground arith) (rw a refl)
  | inr a ↦ elim (Bool-cases (ltb v 16384)) [
    | inl b ↦ two (ground arith) (ground arith) (
        let small : v / 2 ^ 8 < 64 = ground arith in
        let first : bit_or (v / 2 ^ 8) 0x40 % 256 ≡ v / 2 ^ 8 + 64 =
          omega (arith, or_0x40 (v / 2 ^ 8) small, small) in
        rw (a, b, first) refl)
    | inr b ↦ elim (Bool-cases (ltb v 1073741824)) [
      | inl c ↦ four (ground arith) (ground arith) (
          let small : v / 2 ^ 24 < 64 = ground arith in
          let first : bit_or (v / 2 ^ 24) 0x80 % 256 ≡ v / 2 ^ 24 + 128 =
            omega (arith, or_0x80 (v / 2 ^ 24) (omega (arith, small)), small) in
          rw (a, b, c, first) refl)
      | inr c ↦ eight (ground arith) (
          let small : v / 2 ^ 56 < 64 = omega arith in
          let first : bit_or (v / 2 ^ 56) 0xC0 % 256 ≡ v / 2 ^ 56 + 192 =
            omega (arith, or_0xc0 (v / 2 ^ 56) small, small) in
          let inside : ltb v 4611686018427387904 ≡ true = lt→ltb v 4611686018427387904 h in
          rw (a, b, c, inside, first) refl)
    ]
  ]
]

-- The eight bytes of a value make it up.
eight_bytes :
    (v : ℕ)
    → v / 2 ^ 56 * 2 ^ 56
        + byte_at v 48 * 2 ^ 48
        + byte_at v 40 * 2 ^ 40
        + byte_at v 32 * 2 ^ 32
        + byte_at v 24 * 2 ^ 24
        + byte_at v 16 * 2 ^ 16
        + byte_at v 8 * 2 ^ 8
        + byte_at v 0
      ≡ v
eight_bytes v =
    let a : v / 2 ^ 56 * 256 + byte_at v 48 ≡ v / 2 ^ 48 = omega arith in
    let b : v / 2 ^ 48 * 256 + byte_at v 40 ≡ v / 2 ^ 40 = omega arith in
    let c : v / 2 ^ 40 * 256 + byte_at v 32 ≡ v / 2 ^ 32 = omega arith in
    let d : v / 2 ^ 32 * 256 + byte_at v 24 ≡ v / 2 ^ 24 = omega arith in
    let e : v / 2 ^ 24 * 256 + byte_at v 16 ≡ v / 2 ^ 16 = omega arith in
    let f : v / 2 ^ 16 * 256 + byte_at v 8 ≡ v / 2 ^ 8 = omega arith in
    let g : v / 2 ^ 8 * 256 + byte_at v 0 ≡ v = omega arith in omega (arith, a, b, c, d, e, f, g)

-- A value below 2^62 is read back, whatever follows, and just its bytes are consumed: 1 to 8 of them.
pub decode_varint-varint :
    (v : ℕ) (rest : List ℕ)
    → v < 2 ^ 62
    → (decode_varint (varint v ++ rest) ≡ some (v, length (varint v)))
      × (0 < length (varint v))
      × (length (varint v) ≤ 8)
unfolding decode_varint
decode_varint-varint v rest h = elim (varint-Form v h) [
  | one below e ↦ rw e (ground (arith, and_0x3f v (omega arith)), omega arith, omega arith)
  | two above below e ↦
      rw e (ground (arith, and_0x3f (v / 2 ^ 8 + 64) (omega arith)), omega arith, omega arith)
  | four above below e ↦
      rw e (ground (arith, and_0x3f (v / 2 ^ 24 + 128) (omega arith)), omega arith, omega arith)
  | eight above e ↦
      let top : bit_and (v / 2 ^ 56 + 192) 0x3F ≡ v / 2 ^ 56 =
        omega (arith, and_0x3f (v / 2 ^ 56 + 192) (omega arith)) in
      rw e (ground (arith, top, eight_bytes v), omega arith, omega arith)
]
