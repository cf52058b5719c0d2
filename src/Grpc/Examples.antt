-- ===== src/Grpc/Examples.antt =====
-- The theorems on gRPC at concrete inputs.
use async_net.Base.{ℕ, ◌^◌, ◌<◌, ◌≡◌, refl, arith, List, [], ◌∷◌, ◌++◌, join_chunks, length}
use async_net.Grpc.Wire.{encode_grpc_message}
use async_net.Grpc.Deframer.{new_deframer, fed, feed_data, feed_all, and_then}
use async_net.Grpc.Deframer.Chunks.{feed_data-append}
use async_net.Grpc.Deframer.Messages.{wires, feed_all-wires}
use async_net.Grpc.Reader.{new_reader, Call, read_by, pushed, finished, run}
use async_net.Grpc.Reader.Fifo.{
  received, pushes, run-received, IsValid, none-ne-some, answered, exclusive, run-answered,
}

feed_data-append_example :
    feed_data new_deframer ((0 ∷ 0 ∷ 0 ∷ []) ++ (0 ∷ 1 ∷ 5 ∷ []))
    ≡ and_then (feed_data new_deframer (0 ∷ 0 ∷ 0 ∷ [])) (λ d'. feed_data d' (0 ∷ 1 ∷ 5 ∷ []))
feed_data-append_example =
    feed_data-append new_deframer (0 ∷ 0 ∷ 0 ∷ []) (0 ∷ 1 ∷ 5 ∷ []) (omega arith)

-- Two messages, one of them empty, in chunks that cut the first header.
abbrev two_messages : List (List ℕ)
two_messages = (8 ∷ 1 ∷ []) ∷ [] ∷ []

abbrev cut : List ℕ
cut = 0 ∷ 0 ∷ 0 ∷ []

abbrev others : List (List ℕ)
others = (0 ∷ 2 ∷ 8 ∷ 1 ∷ 0 ∷ []) ∷ (0 ∷ 0 ∷ 0 ∷ 0 ∷ []) ∷ []

cut-wires : cut ++ join_chunks others ≡ wires two_messages
unfolding join_chunks encode_grpc_message
cut-wires = refl

wires_small : length (wires two_messages) < 2 ^ 32
unfolding encode_grpc_message
wires_small = omega arith

feed_all-wires_example :
    feed_all new_deframer (cut ∷ others) ≡ fed (record { buf = []; messages = two_messages })
feed_all-wires_example =
    feed_all-wires two_messages cut others (omega arith, (omega arith, tt)) cut-wires wires_small

abbrev calls : List Call
calls = read_by 1 ∷ pushed (5 ∷ []) ∷ pushed (6 ∷ []) ∷ finished ∷ read_by 1 ∷ read_by 1 ∷ []

run-received_example :
    received (run new_reader calls).1 ++ (run new_reader calls).0.messages ≡ [] ++ pushes calls
run-received_example = run-received new_reader calls

new_reader-idle : IsValid new_reader
new_reader-idle = record { idle = λ h e. absurd (none-ne-some e) }

abbrev two_readers : List Call
two_readers = read_by 1 ∷ pushed (7 ∷ []) ∷ read_by 2 ∷ finished ∷ []

run-answered_example : answered (run new_reader two_readers).1 ≡ 1 ∷ 2 ∷ []
unfolding exclusive run
run-answered_example = run-answered new_reader two_readers new_reader-idle refl refl

-- The second coroutine takes the place of the first, which is not resumed when the stream ends.
first_reader_forgotten :
    answered (run new_reader (read_by 1 ∷ read_by 2 ∷ finished ∷ [])).1 ≡ 2 ∷ []
unfolding run
first_reader_forgotten = refl
