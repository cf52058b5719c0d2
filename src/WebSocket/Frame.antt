-- ===== src/WebSocket/Frame.antt =====
-- The frame codec of include/async_net/http/websocket.hpp: `encode_frame` and `parse_frame`.
use async_net.Base.{ℕ, ◌+◌, ◌*◌, ◌%◌, ◌^◌, List, [], ◌∷◌, ◌++◌, Bool, not}
use async_net.Base.{Option, none, some, bit_and, bit_or, bit_xor, ◌==◌, ltb, leb, if◌then◌else◌}
use async_net.Base.{length, take, drop, at, byte_at}

-- `enum class opcode : uint8_t`; `other n` is a value with no enumerator.
pub data Opcode : Type 0 where
  continuation text binary close ping pong : Opcode
  other : ℕ → Opcode

unfoldable pub opcode_code : Opcode → ℕ
opcode_code continuation = 0x0
opcode_code text = 0x1
opcode_code binary = 0x2
opcode_code close = 0x8
opcode_code ping = 0x9
opcode_code pong = 0xA
opcode_code (other n) = n

-- `static_cast<opcode>(b)`
unfoldable pub opcode_of : ℕ → Opcode
opcode_of b =
    if b == 0x0
    then continuation
    else if b == 0x1
    then text
    else if b == 0x2
    then binary
    else if b == 0x8
    then close
    else if b == 0x9
    then ping
    else if b == 0xA
    then pong
    else other b

-- `struct frame`
pub record Frame : Type 0 where
  pub fin : Bool
  pub op : Opcode
  pub masked : Bool
  pub payload : List ℕ

unfoldable pub first_byte : Opcode → Bool → ℕ
unfolding opcode_code
first_byte op fin = if fin then bit_or (opcode_code op) 0x80 else opcode_code op

-- The second byte, with no mask bit, and the extended length behind it.
unfoldable pub length_bytes : ℕ → List ℕ
length_bytes n =
    if leb n 125
    then n ∷ []
    else if leb n 65535
    then 126 ∷ byte_at n 8 ∷ byte_at n 0 ∷ []
    else 127
      ∷ byte_at n 56
      ∷ byte_at n 48
      ∷ byte_at n 40
      ∷ byte_at n 32
      ∷ byte_at n 24
      ∷ byte_at n 16
      ∷ byte_at n 8
      ∷ byte_at n 0
      ∷ []

unfoldable pub encode_frame : Opcode → List ℕ → Bool → List ℕ
unfolding first_byte length_bytes
encode_frame op payload fin = first_byte op fin ∷ (length_bytes (length payload) ++ payload)

-- The loop over the eight bytes of a long length: `payload_len` is a `uint64_t`.
unfoldable pub load_be : List ℕ → ℕ → ℕ
load_be [] acc = acc
load_be (b ∷ bs) acc = load_be bs ((acc * 2 ^ 8) % 2 ^ 64 + b)

-- The length of the payload and the position behind it; `none` is a lack of data.
unfoldable pub read_length : List ℕ → ℕ → Option (ℕ × ℕ)
unfolding load_be
read_length input payload_len =
    if payload_len == 126
    then (if ltb (length input) 4 then none else some (at input 2 * 2 ^ 8 + at input 3, 4))
    else if payload_len == 127
    then (if ltb (length input) 10 then none else some (load_be (take 8 (drop 2 input)) 0, 10))
    else some (payload_len, 2)

-- The masking key and the position behind it.
unfoldable pub read_mask : List ℕ → Bool → ℕ → Option (List ℕ × ℕ)
read_mask input masked pos =
    if masked
    then (if ltb (length input) (pos + 4) then none else some (take 4 (drop pos input), pos + 4))
    else some (0 ∷ 0 ∷ 0 ∷ 0 ∷ [], pos)

-- The loop that unmasks the payload from the index `i` on.
unfoldable pub unmask : List ℕ → ℕ → List ℕ → List ℕ
unmask mask_key i [] = []
unmask mask_key i (b ∷ bs) = bit_xor b (at mask_key (i % 4)) ∷ unmask mask_key (i + 1) bs

-- `parsed` is the frame and the number of bytes consumed, `more` is `nullopt`, and `length_error`
-- the exception of a `std::string` that is too long.
pub data ParseResult : Type 0 where
  parsed : Frame → ℕ → ParseResult
  more length_error : ParseResult

-- The payload at the position `pos`. The test adds in 64 bits and may wrap; where it passes by that,
-- the string would be longer than any.
unfoldable pub take_payload : List ℕ → Bool → Opcode → Bool → List ℕ → ℕ → ℕ → ParseResult
unfolding unmask
take_payload input fin op masked mask_key pos payload_len =
    if ltb (length input) ((pos + payload_len) % 2 ^ 64)
    then more
    else if leb (2 ^ 64) (pos + payload_len)
    then length_error
    else let payload = take payload_len (drop pos input) in
      parsed
        (record {
          fin = fin;
          op = op;
          masked = masked;
          payload = if masked then unmask mask_key 0 payload else payload;
        })
        (pos + payload_len)

unfoldable pub parse_frame : List ℕ → ParseResult
unfolding opcode_of read_length read_mask take_payload
parse_frame input =
    if ltb (length input) 2
    then more
    else let byte0 = at input 0 in
      let byte1 = at input 1 in
      let masked = not (bit_and byte1 0x80 == 0) in
      elim (read_length input (bit_and byte1 0x7F)) [
        | none ↦ more
        | some (payload_len, pos) ↦ elim (read_mask input masked pos) [
          | none ↦ more
          | some (mask_key, pos') ↦
              take_payload input (not (bit_and byte0 0x80 == 0)) (opcode_of (bit_and byte0 0x0F))
                masked mask_key pos' payload_len
        ]
      ]
