-- ===== src/Grpc/Deframer.antt =====
-- `class stream_deframer` of include/async_net/grpc/stream_deframer.hpp. The messages go to the
-- callback or to the reader; either way the model logs them in order.
pub mod Rounds
pub mod Chunks
pub mod Messages
use async_net.Base.{
  ℕ, zero, suc, ◌+◌, ◌%◌, ◌^◌, List, [], ◌∷◌, ◌++◌, if◌then◌else◌, ltb, length, take, drop,
}
use async_net.Grpc.Wire.{message_length, Decoded, message, decode_grpc_message}

-- `buf_` and the messages that have gone out.
pub record Deframer : Type 0 where
  pub buf : List ℕ
  pub messages : List (List ℕ)

abbrev pub new_deframer : Deframer
new_deframer = record { buf = []; messages = [] }

-- The result of `feed`; `undefined` is an iterator behind the end of the buffer.
pub data Fed : Type 0 where
  fed : Deframer → Fed
  undefined stuck : Fed

-- A message that `decode_grpc_message` does not give is dropped.
unfoldable pub emit_message : List (List ℕ) → List ℕ → List (List ℕ)
emit_message messages frame_data = elim (decode_grpc_message frame_data) [
  | message proto ↦ messages ++ (proto ∷ [])
  | Decoded.incomplete ↦ messages
  | Decoded.undefined ↦ messages
]

-- The loop of `feed`, on fuel. The sum `5 + msg_len` has 32 bits in the test and in `erase`.
unfoldable pub deframe_loop : ℕ → Deframer → Fed
deframe_loop zero d = stuck
deframe_loop (suc fuel) d =
    let msg_len = message_length d.buf in
    let rest = deframe_loop fuel (record {
      buf = drop ((5 + msg_len) % 2 ^ 32) d.buf;
      messages = emit_message d.messages (take (5 + msg_len) d.buf);
    }) in
    if ltb (length d.buf) 5
    then fed d
    else if ltb (length d.buf) ((5 + msg_len) % 2 ^ 32)
    then fed d
    else if ltb (length d.buf) (5 + msg_len)
    then undefined
    else rest

-- `feed(data, len)`. A round takes bytes of a buffer that is smaller than 2^32.
unfoldable pub feed_data : Deframer → List ℕ → Fed
unfolding deframe_loop
feed_data d input =
    let buf = d.buf ++ input in deframe_loop (suc (length buf)) (record d { buf = buf })

-- What a call does behind another one.
abbrev pub and_then : Fed → (Deframer → Fed) → Fed
and_then (fed d) k = k d
and_then undefined k = undefined
and_then stuck k = stuck

-- Several calls of `feed` in a row.
unfoldable pub feed_all : Deframer → List (List ℕ) → Fed
feed_all d [] = fed d
feed_all d (chunk ∷ chunks) = and_then (feed_data d chunk) (λ d'. feed_all d' chunks)
