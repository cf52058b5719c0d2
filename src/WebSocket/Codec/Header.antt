-- ===== src/WebSocket/Codec/Header.antt =====
-- The header of a frame, as `encode_frame` writes it and as a client writes it, is read back.
use async_net.Base.{ℕ, ◌+◌, ◌*◌, ◌/◌, ◌%◌, ◌^◌, ◌≤◌, ◌<◌, ◌≡◌, refl, ap, ◌∙◌, arith}
use async_net.Base.{List, [], ◌∷◌, ◌++◌, length, at, byte_at, leb}
use async_net.Base.{◌==◌, not, Bool, Bool-cases, inl, inr, ◌⊎◌, some}
use async_net.Base.{bit_and, bit_or, and_0x7f, and_0x80, and_0x0f, or_0x80}
use native.Mathlib.Nat.{div-div-eq-div-mul, div-le_self}
use async_net.WebSocket.Frame.{
  Opcode, opcode_code, opcode_of, first_byte, length_bytes, load_be, read_length,
}

-- A value that the four bits of a frame can hold.
abbrev pub IsOpcode : Opcode → Type 0
IsOpcode (Opcode.other n) = (opcode_of n ≡ Opcode.other n) × (n < 16)
IsOpcode _ = Unit

pub opcode_of-opcode_code :
    (op : Opcode) → IsOpcode op → (opcode_of (opcode_code op) ≡ op) × (opcode_code op < 16)
unfolding opcode_of opcode_code
opcode_of-opcode_code (Opcode.other n) h = h
opcode_of-opcode_code _ h = (refl, omega arith)

-- The opcode and the FIN bit share the first byte.
pub first_byte_read :
    (op : Opcode) (fin : Bool)
    → IsOpcode op
    → (opcode_of (bit_and (first_byte op fin) 0x0F) ≡ op)
      × (not (bit_and (first_byte op fin) 0x80 == 0) ≡ fin)
unfolding first_byte
first_byte_read op fin h =
    let (named, small) = opcode_of-opcode_code op h in
    let c = opcode_code op in
    let low_byte = and_0x0f c (omega (arith, small)) in
    let top_bit = and_0x80 c (omega (arith, small)) in
    let low_byte' = and_0x0f (c + 128) (omega (arith, small)) in
    let top_bit' = and_0x80 (c + 128) (omega (arith, small)) in
    let low : opcode_code op % 16 ≡ opcode_code op = omega (arith, small) in
    elim (Bool-cases fin) [
      | inl final ↦
          let byte : bit_or (opcode_code op) 0x80 ≡ opcode_code op + 128 =
            or_0x80 (opcode_code op) (omega (arith, small)) in
          let kept : (opcode_code op + 128) % 16 ≡ opcode_code op = omega (arith, small) in
          let top : (opcode_code op + 128) / 128 * 128 ≡ 128 = omega (arith, small) in
          rw (final, byte, low_byte', top_bit', kept, top) (named, refl)
      | inr part ↦
          let none_set : opcode_code op / 128 * 128 ≡ 0 = omega (arith, small) in
          rw (part, low_byte, top_bit, low, none_set) (named, refl)
    ]

-- The length with the mask bit `m`, 0 or 128, on its first byte.
unfoldable pub with_mask : ℕ → List ℕ → List ℕ
with_mask m [] = []
with_mask m (b ∷ bs) = (b + m) ∷ bs

load_be_byte :
    (n d : ℕ) (bs : List ℕ)
    → n < 2 ^ 64
    → load_be (n / d % 256 ∷ bs) (n / (d * 256)) ≡ load_be bs (n / d)
unfolding load_be
load_be_byte n d bs h =
    rw (← div-div-eq-div-mul n d 256) (ap (load_be bs) (omega (arith, div-le_self n d)))

load_be-nil : (acc : ℕ) → load_be [] acc ≡ acc
unfolding load_be
load_be-nil acc = refl

load_be-store :
    (n : ℕ)
    → n < 2 ^ 64
    → load_be
        (byte_at n 56
          ∷ byte_at n 48
          ∷ byte_at n 40
          ∷ byte_at n 32
          ∷ byte_at n 24
          ∷ byte_at n 16
          ∷ byte_at n 8
          ∷ byte_at n 0
          ∷ [])
        0
      ≡ n
load_be-store n h =
    let start : 0 ≡ n / (2 ^ 56 * 256) = omega arith in
    rw
      (
        start,
        load_be_byte n (2 ^ 56)
            (byte_at n 48
              ∷ byte_at n 40
              ∷ byte_at n 32
              ∷ byte_at n 24
              ∷ byte_at n 16
              ∷ byte_at n 8
              ∷ byte_at n 0
              ∷ [])
            h,
        load_be_byte n (2 ^ 48)
            (byte_at n 40
              ∷ byte_at n 32
              ∷ byte_at n 24
              ∷ byte_at n 16
              ∷ byte_at n 8
              ∷ byte_at n 0
              ∷ [])
            h,
        load_be_byte n (2 ^ 40)
            (byte_at n 32 ∷ byte_at n 24 ∷ byte_at n 16 ∷ byte_at n 8 ∷ byte_at n 0 ∷ []) h,
        load_be_byte n (2 ^ 32) (byte_at n 24 ∷ byte_at n 16 ∷ byte_at n 8 ∷ byte_at n 0 ∷ []) h,
        load_be_byte n (2 ^ 24) (byte_at n 16 ∷ byte_at n 8 ∷ byte_at n 0 ∷ []) h,
        load_be_byte n (2 ^ 16) (byte_at n 8 ∷ byte_at n 0 ∷ []) h,
        load_be_byte n (2 ^ 8) (byte_at n 0 ∷ []) h,
        load_be_byte n 1 [] h,
      )
      (load_be-nil (n / 1) ∙ omega arith)

-- The low seven bits of the second byte.
low_seven : (x m : ℕ) → x < 128 → (m ≡ 0) ⊎ (m ≡ 128) → bit_and (x + m) 0x7F ≡ x
low_seven x m h (inl e) = omega (arith, and_0x7f (x + m) (omega arith))
low_seven x m h (inr e) = omega (arith, and_0x7f (x + m) (omega arith))

-- The three forms of a length.
pub data Form (n : ℕ) : Type 0 where
  short : n ≤ 125 → length_bytes n ≡ n ∷ [] → Form n
  middle : 125 < n → n ≤ 65535 → length_bytes n ≡ 126 ∷ byte_at n 8 ∷ byte_at n 0 ∷ [] → Form n
  long :
      65535 < n
      → length_bytes n
        ≡ 127
          ∷ byte_at n 56
          ∷ byte_at n 48
          ∷ byte_at n 40
          ∷ byte_at n 32
          ∷ byte_at n 24
          ∷ byte_at n 16
          ∷ byte_at n 8
          ∷ byte_at n 0
          ∷ []
      → Form n

pub form : (n : ℕ) → Form n
unfolding length_bytes
form n = elim (Bool-cases (leb n 125)) [
  | inl low ↦ short (ground arith) (rw low refl)
  | inr above ↦ elim (Bool-cases (leb n 65535)) [
    | inl low ↦ middle (ground arith) (ground arith) (rw (above, low) refl)
    | inr large ↦ long (ground arith) (rw (above, large) refl)
  ]
]

-- The header's length is read back, whatever the mask bit is and whatever follows.
pub read_length-length_bytes :
    (b0 m n : ℕ) (t : List ℕ)
    → n < 2 ^ 64
    → (m ≡ 0) ⊎ (m ≡ 128)
    → read_length
        (b0 ∷ (with_mask m (length_bytes n) ++ t))
        (bit_and (at (b0 ∷ (with_mask m (length_bytes n) ++ t)) 1) 0x7F)
      ≡ some (n, 1 + length (length_bytes n))
unfolding read_length with_mask
read_length-length_bytes b0 m n t h bit = elim (form n) [
  | short low shape ↦ rw (shape, low_seven n m (omega arith) bit) (ground arith)
  | middle above low shape ↦ rw (shape, low_seven 126 m (omega arith) bit) (ground arith)
  | long above shape ↦
      rw (shape, low_seven 127 m (omega arith) bit, load_be-store n h) (ground arith)
]
