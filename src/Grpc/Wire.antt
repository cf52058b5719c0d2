-- ===== src/Grpc/Wire.antt =====
-- src/grpc/grpc_wire.cpp: a message behind a flag and its length.
use async_net.Base.{
  ℕ, ◌+◌, ◌-◌, ◌%◌, ◌^◌, ◌<◌, ◌≡◌, ◌∙◌, false, ltb_ge, refl, ap, arith, List, ◌∷◌, ◌++◌,
  if◌then◌else◌, ltb,
}
use async_net.Base.{
  length, length-append, take, drop, at, store_u32, load_u32, load-store_u32, take-append_eq,
}

-- The length is a `uint32_t`.
unfoldable pub encode_grpc_message : List ℕ → List ℕ
encode_grpc_message protobuf_data = 0 ∷ (store_u32 (length protobuf_data % 2 ^ 32) ++ protobuf_data)

-- `incomplete` is `nullopt`, and `undefined` a read behind the input.
pub data Decoded : Type 0 where
  message : List ℕ → Decoded
  incomplete undefined : Decoded

-- Bytes 1 to 4.
abbrev pub message_length : List ℕ → ℕ
message_length input = load_u32 (at input 1) (at input 2) (at input 3) (at input 4)

-- The test adds in 32 bits and may wrap; where it passes by that, the message is read from behind
-- the input.
unfoldable pub decode_grpc_message : List ℕ → Decoded
decode_grpc_message input =
    if ltb (length input) 5
    then incomplete
    else if ltb (length input) ((5 + message_length input) % 2 ^ 32)
    then incomplete
    else if ltb (length input) (5 + message_length input)
    then undefined
    else message (take (message_length input) (drop 5 input))

pub message_length-encode :
    (m rest : List ℕ)
    → length m < 2 ^ 32
    → message_length (encode_grpc_message m ++ rest) ≡ length m
unfolding encode_grpc_message
message_length-encode m rest h = load-store_u32 (length m % 2 ^ 32) (omega arith) ∙ omega arith

pub length-encode_grpc_message : (m : List ℕ) → length (encode_grpc_message m) ≡ 5 + length m
unfolding encode_grpc_message
length-encode_grpc_message m = omega arith

-- A message is decoded to itself, whatever follows it, if it is shorter than 2^32 - 5 bytes.
pub decode_grpc_message-encode_grpc_message :
    (m rest : List ℕ)
    → length m < 2 ^ 32 - 5
    → decode_grpc_message (encode_grpc_message m ++ rest) ≡ message m
unfolding decode_grpc_message encode_grpc_message
decode_grpc_message-encode_grpc_message m rest h =
    let input = encode_grpc_message m ++ rest in
    let len : message_length input ≡ length m = message_length-encode m rest (omega arith) in
    let size : length input ≡ 5 + length m + length rest = omega (arith, length-append m rest) in
    let header : ltb (length input) 5 ≡ false = ltb_ge _ _ (omega (arith, size)) in
    let whole : ltb (length input) ((5 + length m) % 2 ^ 32) ≡ false =
      ltb_ge _ _ (omega (arith, size)) in
    let inside : ltb (length input) (5 + length m) ≡ false = ltb_ge _ _ (omega (arith, size)) in
    rw (header, len, whole, inside) (ap message (take-append_eq m rest (length m) refl))
