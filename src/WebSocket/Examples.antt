-- ===== src/WebSocket/Examples.antt =====
-- The theorems on WebSocket at concrete inputs.
use async_net.Base.{
  ℕ, ◌≤◌, ◌≡◌, ◌≢◌, refl, arith, List, [], ◌∷◌, ◌++◌, length, take, drop, All, IsByte,
}
use async_net.Base.{true, false, join_chunks, inl}
use async_net.WebSocket.Frame.{
  text, opcode_code, opcode_of, encode_frame, parse_frame, parsed, first_byte, length_bytes, unmask,
}
use async_net.WebSocket.Frame.{take_payload, read_mask, read_length}
use async_net.WebSocket.Codec.Header.{with_mask}
use async_net.WebSocket.Codec.Masking.{mask_payload}
use async_net.WebSocket.Codec.RoundTrip.{
  parse_frame-encode_frame, client_frame, parse_frame-client_frame,
}
use async_net.WebSocket.Codec.Prefix.{parse_frame-append}
use async_net.WebSocket.Connection.{read_frame, Connection, receive, returned, unfinished}
use async_net.WebSocket.Connection.Stream.{IsChunk, whole, whole-read_frame}
use async_net.WebSocket.Connection.Receive.{receive-finishes}
use async_net.WebSocket.Connection.Joined.{joined, on_stream, on_stream-receive}
use async_net.WebSocket.Connection.Fragments.{
  Masked, IsMasked, part, ping_piece, message_wire, pongs_of,
}
use async_net.WebSocket.Connection.Fragments.{receive-message_wire}
use async_net.WebSocket.Connection.Writes.{Written, write_raw-Written}
use async_net.WebSocket.Base64.{base64_encode}
use async_net.WebSocket.Base64.RoundTrip.{base64_decode, base64_decode-base64_encode}

abbrev key : List ℕ
key = 1 ∷ 2 ∷ 3 ∷ 4 ∷ []

key-IsByte : All IsByte key
key-IsByte = (omega arith, (omega arith, (omega arith, (omega arith, tt))))

abbrev word : List ℕ
word = 72 ∷ 105 ∷ []

word-IsByte : All IsByte word
word-IsByte = (omega arith, (omega arith, tt))

parse_frame-encode_frame_example :
    parse_frame (encode_frame text word true ++ (7 ∷ []))
    ≡ parsed
        (record { fin = true; op = text; masked = false; payload = word })
        (length (encode_frame text word true))
parse_frame-encode_frame_example = parse_frame-encode_frame text word true (7 ∷ []) tt (omega arith)

parse_frame-client_frame_example :
    parse_frame (client_frame key text word true ++ (7 ∷ []))
    ≡ parsed
        (record { fin = true; op = text; masked = true; payload = word })
        (length (client_frame key text word true))
parse_frame-client_frame_example =
    parse_frame-client_frame key text word true (7 ∷ []) refl key-IsByte word-IsByte tt
      (omega arith)

abbrev small_frame : List ℕ
small_frame = 0x81 ∷ 2 ∷ 72 ∷ 105 ∷ []

small_frame_parsed :
    parse_frame small_frame
    ≡ parsed (record { fin = true; op = text; masked = false; payload = word }) 4
unfolding parse_frame take_payload read_mask read_length opcode_of
small_frame_parsed = refl

parse_frame-append_example :
    (parse_frame (small_frame ++ (9 ∷ []))
      ≡ parsed (record { fin = true; op = text; masked = false; payload = word }) 4)
    × (2 ≤ 4)
    × (4 ≤ 4)
parse_frame-append_example =
    parse_frame-append small_frame (9 ∷ [])
      (record { fin = true; op = text; masked = false; payload = word }) 4 small_frame_parsed

whole-read_frame_example :
    whole (read_frame (0x81 ∷ []) ((2 ∷ 72 ∷ []) ∷ (105 ∷ 9 ∷ []) ∷ []))
    ≡ whole (read_frame ((0x81 ∷ []) ++ join_chunks ((2 ∷ 72 ∷ []) ∷ (105 ∷ 9 ∷ []) ∷ [])) [])
whole-read_frame_example =
    whole-read_frame (0x81 ∷ []) ((2 ∷ 72 ∷ []) ∷ (105 ∷ 9 ∷ []) ∷ []) (refl, (refl, tt))

abbrev greeting : Masked
greeting = record { key = key; payload = word }

greeting-IsMasked : IsMasked greeting
greeting-IsMasked = record {
  key_size = refl;
  key_bytes = key-IsByte;
  payload_bytes = word-IsByte;
  payload_size = omega arith;
}

-- A fragment, a ping, two more fragments, and the first byte of the next frame.
abbrev stream : List ℕ
stream = message_wire text greeting (ping_piece greeting ∷ part greeting ∷ []) greeting (0x81 ∷ [])

abbrev peer : Connection
peer = record { read_buffer = []; incoming = take 3 stream ∷ drop 3 stream ∷ []; sent = [] }

peer-IsChunk : All IsChunk peer.incoming
unfolding first_byte length_bytes with_mask unmask mask_payload opcode_code
peer-IsChunk = (refl, (refl, tt))

receive-finishes_example : receive peer ≢ unfinished
receive-finishes_example = receive-finishes peer

on_stream-receive_example : on_stream (receive peer) ≡ on_stream (receive (joined peer))
on_stream-receive_example = on_stream-receive peer peer-IsChunk

peer-message_wire : (peer.read_buffer ++ join_chunks peer.incoming) ≡ stream
unfolding first_byte length_bytes with_mask unmask mask_payload opcode_code join_chunks
peer-message_wire = refl

receive-message_wire_example :
    on_stream (receive peer)
    ≡ returned ((word ++ (word ++ [])) ++ word) (record {
      read_buffer = 0x81 ∷ [];
      incoming = [];
      sent = [] ++ pongs_of (ping_piece greeting ∷ part greeting ∷ []);
    })
receive-message_wire_example =
    receive-message_wire peer text greeting (ping_piece greeting ∷ part greeting ∷ []) greeting
      (0x81 ∷ []) peer-IsChunk peer-message_wire (inl refl) greeting-IsMasked
      (greeting-IsMasked, (greeting-IsMasked, tt)) greeting-IsMasked

base64_decode-base64_encode_example : base64_decode (base64_encode word) ≡ word
base64_decode-base64_encode_example = base64_decode-base64_encode word word-IsByte

-- The socket takes one byte, then fails.
write_raw-Written_example : Written word (1 ∷ 0 ∷ [])
write_raw-Written_example = write_raw-Written word (1 ∷ 0 ∷ [])
