-- ===== src/Grpc/Deframer/Messages.antt =====
-- The messages that `encode_grpc_message` framed come out of `stream_deframer`.
use async_net.Base.{
  ℕ, zero, suc, ◌+◌, ◌-◌, ◌%◌, ◌^◌, ◌≤◌, ◌<◌, ◌≡◌, refl, ap, sym, ◌∙◌, arith, List, [], ◌∷◌, ◌++◌,
}
use async_net.Base.{length, length-append, append_assoc, append-nil, join_chunks, All}
use async_net.Base.{take-append_eq, drop-append_eq, take, drop}
use async_net.Grpc.Wire.{
  encode_grpc_message, message_length, message, decode_grpc_message, message_length-encode,
}
use async_net.Grpc.Wire.{length-encode_grpc_message, decode_grpc_message-encode_grpc_message}
use async_net.Grpc.Deframer.{
  Deframer, new_deframer, Fed, fed, undefined, stuck, deframe_loop, feed_data, feed_all,
}
use async_net.Grpc.Deframer.{emit_message, and_then}
use async_net.Grpc.Deframer.Rounds.{
  behind, stops, fails, goes, deframe_loop-Round, deframe_fails, stop_short,
}
use async_net.Grpc.Deframer.Rounds.{deframe_goes, length-behind}
use async_net.Grpc.Deframer.Chunks.{feed_data-append}

buffered : Fed → ℕ
buffered (fed d) = length d.buf
buffered undefined = 0
buffered stuck = 0

-- The buffer does not grow in the loop.
buffered-deframe_loop :
    (fuel : ℕ) (d : Deframer)
    → length d.buf < 2 ^ 32
    → buffered (deframe_loop fuel d) ≤ length d.buf
unfolding buffered
buffered-deframe_loop zero d small = unfold deframe_loop in omega arith
buffered-deframe_loop (suc fuel) d small = elim (deframe_loop-Round d) [
  | stops h ↦ omega (arith, ap buffered (h fuel))
  | fails h p o ↦ omega (arith, ap buffered (deframe_fails d fuel h p o))
  | goes h ↦ omega (
    arith,
    ap buffered (deframe_goes d fuel h small),
    length-behind d h small,
    buffered-deframe_loop fuel (behind d) (omega (arith, length-behind d h small)),
  )
]

buffered-feed_data :
    (d : Deframer) (xs : List ℕ)
    → length d.buf + length xs < 2 ^ 32
    → buffered (feed_data d xs) ≤ length d.buf + length xs
unfolding feed_data
buffered-feed_data d xs small =
    let long = length-append d.buf xs in
    let less =
      buffered-deframe_loop (suc (length (d.buf ++ xs))) (record d { buf = d.buf ++ xs })
        (omega (arith, long)) in
    omega (arith, long, less)

and_then_fed : (r : Fed) → and_then r (λ d. feed_all d []) ≡ r
unfolding feed_all
and_then_fed (fed d) = refl
and_then_fed undefined = refl
and_then_fed stuck = refl

and_then_same :
    (r : Fed) (k k' : Deframer → Fed) (n : ℕ)
    → buffered r ≤ n
    → ((d : Deframer) → length d.buf ≤ n → k d ≡ k' d)
    → and_then r k ≡ and_then r k'
unfolding buffered
and_then_same (fed d) k k' n h same = same d h
and_then_same undefined k k' n h same = refl
and_then_same stuck k k' n h same = refl

-- Calls of `feed`, one for each chunk, do what one call with all the bytes does.
pub feed_all-join_chunks :
    (d : Deframer) (c : List ℕ) (cs : List (List ℕ))
    → length d.buf + length (c ++ join_chunks cs) < 2 ^ 32
    → feed_all d (c ∷ cs) ≡ feed_data d (c ++ join_chunks cs)
unfolding join_chunks feed_all
feed_all-join_chunks d c [] small =
    and_then_fed (feed_data d c) ∙ ap (feed_data d) (sym (append-nil c))
feed_all-join_chunks d c (c' ∷ cs) small =
    let rest = c' ++ join_chunks cs in
    let long = length-append c rest in
    and_then_same (feed_data d c) (λ d'. feed_all d' (c' ∷ cs)) (λ d'. feed_data d' rest)
      (length d.buf + length c) (buffered-feed_data d c (omega (arith, long)))
      (λ d' h. feed_all-join_chunks d' c' cs (omega (arith, h, long)))
    ∙ sym (feed_data-append d c rest (omega (arith, long)))

-- The frames of some messages, one behind the other.
abbrev pub wires : List (List ℕ) → List ℕ
wires [] = []
wires (m ∷ ms) = encode_grpc_message m ++ wires ms

abbrev pub IsShort : List ℕ → Type 0
IsShort m = length m < 2 ^ 32 - 5

behind-encode :
    (m rest : List ℕ) (messages : List (List ℕ))
    → IsShort m
    → behind (record { buf = encode_grpc_message m ++ rest; messages = messages })
      ≡ record { buf = rest; messages = messages ++ (m ∷ []) }
unfolding emit_message
behind-encode m rest messages h =
    let w = encode_grpc_message m in
    let len : message_length (w ++ rest) ≡ length m = message_length-encode m rest (omega arith) in
    let size : length w ≡ 5 + length m = length-encode_grpc_message m in
    let cut : drop ((5 + length m) % 2 ^ 32) (w ++ rest) ≡ rest =
      drop-append_eq w rest ((5 + length m) % 2 ^ 32) (omega (arith, size)) in
    let taken : take (5 + length m) (w ++ rest) ≡ w =
      take-append_eq w rest (5 + length m) (omega (arith, size)) in
    let read : decode_grpc_message w ≡ message m =
      ap decode_grpc_message (sym (append-nil w))
      ∙ decode_grpc_message-encode_grpc_message m [] h in
    rw len (rw (cut, taken) (rw (read, emit_message) refl))

deframe_loop-wires :
    (fuel : ℕ) (ms messages : List (List ℕ))
    → All IsShort ms
    → length (wires ms) < 2 ^ 32
    → length (wires ms) < fuel
    → deframe_loop fuel (record { buf = wires ms; messages = messages })
      ≡ fed (record { buf = []; messages = messages ++ ms })
deframe_loop-wires zero ms messages v small h = absurd (omega arith)
deframe_loop-wires (suc fuel) [] messages v small h =
    stop_short (record { buf = []; messages = messages }) fuel (omega arith)
    ∙ ap (λ t. fed (record { buf = []; messages = t })) (sym (append-nil messages))
deframe_loop-wires (suc fuel) (m ∷ ms) messages v small h =
    let d : Deframer = record { buf = encode_grpc_message m ++ wires ms; messages = messages } in
    let size = length-append (encode_grpc_message m) (wires ms) in
    let one = length-encode_grpc_message m in
    let len = message_length-encode m (wires ms) (omega (arith, v.0)) in
    deframe_goes d fuel (omega (arith, size, one, len)) small
    ∙ ap (deframe_loop fuel) (behind-encode m (wires ms) messages v.0)
    ∙ deframe_loop-wires fuel ms (messages ++ (m ∷ [])) v.1 (omega (arith, size, one))
        (omega (arith, size, one))
    ∙ ap (λ t. fed (record { buf = []; messages = t })) (append_assoc messages (m ∷ []) ms)

-- Framed messages come out whole and in order, and nothing is left in the buffer, however the frames
-- are split into chunks. Each message is shorter than 2^32 - 5 bytes, and all the frames than 2^32.
pub feed_all-wires :
    (ms : List (List ℕ)) (c : List ℕ) (cs : List (List ℕ))
    → All IsShort ms
    → c ++ join_chunks cs ≡ wires ms
    → length (wires ms) < 2 ^ 32
    → feed_all new_deframer (c ∷ cs) ≡ fed (record { buf = []; messages = ms })
unfolding feed_data
feed_all-wires ms c cs v stream small =
    feed_all-join_chunks new_deframer c cs (omega (arith, ap length stream))
    ∙ ap (feed_data new_deframer) stream
    ∙ deframe_loop-wires (suc (length (wires ms))) ms [] v small (omega arith)
