-- ===== src/WebSocket/Connection/Fragments.antt =====
-- `receive` on a message that a client sends in fragments, with control frames between them.
use async_net.Base.{
  ℕ, zero, suc, ◌+◌, ◌-◌, ◌^◌, ◌≤◌, ◌<◌, ◌≡◌, refl, ap, ap₂, sym, ◌∙◌, arith, List, [], ◌∷◌, ◌++◌,
}
use async_net.Base.{
  length, length-append, drop-append_eq, append-nil, append_assoc, All, IsByte, Bool, true, false,
}
use async_net.Base.{◌⊎◌, inl, inr}
use async_net.Base.{join_chunks}
use async_net.WebSocket.Frame.{Opcode, continuation, text, binary, ping, pong, Frame, encode_frame}
use async_net.WebSocket.Codec.Header.{IsOpcode}
use async_net.WebSocket.Codec.RoundTrip.{client_frame, parse_frame-client_frame}
use async_net.WebSocket.Connection.{got, read_frame, Message, no_message}
use async_net.WebSocket.Connection.{handle_frame, Connection, returned, receive_loop, receive}
use async_net.WebSocket.Connection.Stream.{IsChunk, read_found}
use async_net.WebSocket.Connection.Receive.{receive_next, receive_finish}
use async_net.WebSocket.Connection.Joined.{on_stream, on_stream-receive}

-- A payload and the key that it is masked with.
pub record Masked : Type 0 where
  pub key : List ℕ
  pub payload : List ℕ

pub record IsMasked (m : Masked) : Type 0 where
  pub key_size : length m.key ≡ 4
  pub key_bytes : All IsByte m.key
  pub payload_bytes : All IsByte m.payload
  pub payload_size : length m.payload < 2 ^ 63

abbrev pub wire : Opcode → Bool → Masked → List ℕ
wire op fin m = client_frame m.key op m.payload fin

-- What comes between the first and the last fragment: a fragment, a ping or a pong.
pub data Piece : Type 0 where
  part ping_piece pong_piece : Masked → Piece

abbrev masked_of : Piece → Masked
masked_of (part m) = m
masked_of (ping_piece m) = m
masked_of (pong_piece m) = m

abbrev pub IsPiece : Piece → Type 0
IsPiece p = IsMasked (masked_of p)

abbrev piece_wire : Piece → List ℕ
piece_wire (part m) = wire continuation false m
piece_wire (ping_piece m) = wire ping true m
piece_wire (pong_piece m) = wire pong true m

abbrev piece_text : Piece → List ℕ
piece_text (part m) = m.payload
piece_text _ = []

abbrev piece_pongs : Piece → List (List ℕ)
piece_pongs (ping_piece m) = encode_frame pong m.payload true ∷ []
piece_pongs _ = []

abbrev pub wires : List Piece → List ℕ
wires [] = []
wires (p ∷ ps) = piece_wire p ++ wires ps

-- The text of the fragments.
abbrev pub text_of : List Piece → List ℕ
text_of [] = []
text_of (p ∷ ps) = piece_text p ++ text_of ps

-- The answers to the pings.
abbrev pub pongs_of : List Piece → List (List ℕ)
pongs_of [] = []
pongs_of (p ∷ ps) = piece_pongs p ++ pongs_of ps

read_frame-wire :
    (op : Opcode) (fin : Bool) (m : Masked) (rest : List ℕ)
    → IsOpcode op
    → IsMasked m
    → read_frame (wire op fin m ++ rest) []
      ≡ got (record { fin = fin; op = op; masked = true; payload = m.payload }) rest []
read_frame-wire op fin m rest h v =
    let w = wire op fin m in
    let f : Frame = record { fin = fin; op = op; masked = true; payload = m.payload } in
    read_found (w ++ rest) [] f (length w) (
      parse_frame-client_frame m.key op m.payload fin rest v.key_size v.key_bytes v.payload_bytes h
        v.payload_size)
    ∙ ap (λ t. got f t []) (drop-append_eq w rest (length w) refl)

-- In the middle of a message: the state of the loop.
abbrev within : Opcode → List ℕ → Message
within op bytes = record { message = bytes; msg_opcode = op; in_fragment = true }

abbrev holds : List ℕ → List (List ℕ) → Connection
holds bytes sent = record { read_buffer = bytes; incoming = []; sent = sent }

receive_loop-piece :
    (fuel : ℕ) (op : Opcode) (bytes : List ℕ) (p : Piece) (rest : List ℕ) (sent : List (List ℕ))
    → IsPiece p
    → receive_loop (suc fuel) (within op bytes) (holds (piece_wire p ++ rest) sent)
      ≡ receive_loop fuel (within op (bytes ++ piece_text p)) (holds rest (sent ++ piece_pongs p))
unfolding handle_frame
receive_loop-piece fuel op bytes (part m) rest sent v =
    receive_next fuel (within op bytes) (holds (wire continuation false m ++ rest) sent) _ rest []
      (within op (bytes ++ m.payload)) [] (read_frame-wire continuation false m rest tt v) refl
receive_loop-piece fuel op bytes (ping_piece m) rest sent v =
    receive_next fuel (within op bytes) (holds (wire ping true m ++ rest) sent) _ rest []
      (within op bytes) (encode_frame pong m.payload true ∷ [])
      (read_frame-wire ping true m rest tt v) refl
    ∙ ap
        (λ b.
          receive_loop fuel (within op b)
            (holds rest (sent ++ (encode_frame pong m.payload true ∷ []))))
        (sym (append-nil bytes))
receive_loop-piece fuel op bytes (pong_piece m) rest sent v =
    receive_next fuel (within op bytes) (holds (wire pong true m ++ rest) sent) _ rest []
      (within op bytes) [] (read_frame-wire pong true m rest tt v) refl
    ∙ ap (λ b. receive_loop fuel (within op b) (holds rest (sent ++ []))) (sym (append-nil bytes))

receive_loop-wires :
    (n fuel : ℕ) (op : Opcode) (bytes : List ℕ) (ps : List Piece) (rest : List ℕ)
    (sent : List (List ℕ))
    → All IsPiece ps
    → n ≡ length ps + fuel
    → receive_loop n (within op bytes) (holds (wires ps ++ rest) sent)
      ≡ receive_loop fuel (within op (bytes ++ text_of ps)) (holds rest (sent ++ pongs_of ps))
receive_loop-wires n fuel op bytes [] rest sent v h =
    let same : n ≡ fuel = omega arith in
    ap (λ k. receive_loop k (within op bytes) (holds rest sent)) same
    ∙ ap₂ (λ b s. receive_loop fuel (within op b) (holds rest s)) (sym (append-nil bytes))
        (sym (append-nil sent))
receive_loop-wires zero fuel op bytes (p ∷ ps) rest sent v h = absurd (omega arith)
receive_loop-wires (suc n) fuel op bytes (p ∷ ps) rest sent v h =
    ap (λ t. receive_loop (suc n) (within op bytes) (holds t sent))
      (append_assoc (piece_wire p) (wires ps) rest)
    ∙ receive_loop-piece n op bytes p (wires ps ++ rest) sent v.0
    ∙ receive_loop-wires n fuel op (bytes ++ piece_text p) ps rest (sent ++ piece_pongs p) v.1
        (omega arith)
    ∙ ap₂ (λ b s. receive_loop fuel (within op b) (holds rest s))
        (append_assoc bytes (piece_text p) (text_of ps))
        (append_assoc sent (piece_pongs p) (pongs_of ps))

-- The last fragment ends the message.
receive_loop-last :
    (fuel : ℕ) (op : Opcode) (bytes : List ℕ) (m : Masked) (rest : List ℕ) (sent : List (List ℕ))
    → IsMasked m
    → receive_loop (suc fuel) (within op bytes) (holds (wire continuation true m ++ rest) sent)
      ≡ returned (bytes ++ m.payload) (holds rest (sent ++ []))
unfolding handle_frame
receive_loop-last fuel op bytes m rest sent v =
    receive_finish fuel (within op bytes) (holds (wire continuation true m ++ rest) sent) _ rest []
      (bytes ++ m.payload) [] (read_frame-wire continuation true m rest tt v) refl

-- The opcode of a message.
abbrev pub IsData : Opcode → Type 0
IsData op = (op ≡ text) ⊎ (op ≡ binary)

receive_loop-first :
    (fuel : ℕ) (op : Opcode) (m : Masked) (rest : List ℕ) (sent : List (List ℕ))
    → IsData op
    → IsMasked m
    → receive_loop (suc fuel) no_message (holds (wire op false m ++ rest) sent)
      ≡ receive_loop fuel (within op m.payload) (holds rest (sent ++ []))
unfolding handle_frame
receive_loop-first fuel op m rest sent (inl e) v = rw e (
    receive_next fuel no_message (holds (wire text false m ++ rest) sent) _ rest []
      (within text m.payload) [] (read_frame-wire text false m rest tt v) refl)
receive_loop-first fuel op m rest sent (inr e) v = rw e (
    receive_next fuel no_message (holds (wire binary false m ++ rest) sent) _ rest []
      (within binary m.payload) [] (read_frame-wire binary false m rest tt v) refl)

-- A message in fragments, from its first frame to its last, and what comes behind it.
abbrev pub message_wire : Opcode → Masked → List Piece → Masked → List ℕ → List ℕ
message_wire op first ps last rest =
    wire op false first ++ (wires ps ++ (wire continuation true last ++ rest))

length-wires : (ps : List Piece) → length ps ≤ length (wires ps)
length-wires [] = omega arith
length-wires (part m ∷ ps) =
    omega (arith, length-wires ps, length-append (wire continuation false m) (wires ps))
length-wires (ping_piece m ∷ ps) =
    omega (arith, length-wires ps, length-append (wire ping true m) (wires ps))
length-wires (pong_piece m ∷ ps) =
    omega (arith, length-wires ps, length-append (wire pong true m) (wires ps))

length-message_wire :
    (op : Opcode) (first : Masked) (ps : List Piece) (last : Masked) (rest : List ℕ)
    → length ps + 1 ≤ length (message_wire op first ps last rest)
length-message_wire op first ps last rest = omega (
  arith,
  length-wires ps,
  length-append (wire op false first) (wires ps ++ (wire continuation true last ++ rest)),
  length-append (wires ps) (wire continuation true last ++ rest),
)

receive_loop-message_wire :
    (n : ℕ) (op : Opcode) (first : Masked) (ps : List Piece) (last : Masked) (rest : List ℕ)
    (sent : List (List ℕ))
    → IsData op
    → IsMasked first
    → All IsPiece ps
    → IsMasked last
    → length ps + 2 ≤ n
    → receive_loop n no_message (holds (message_wire op first ps last rest) sent)
      ≡ returned ((first.payload ++ text_of ps) ++ last.payload) (holds rest (sent ++ pongs_of ps))
receive_loop-message_wire n op first ps last rest sent d vf vp vl h =
    let fuel = n - length ps - 2 in
    let tail = wire continuation true last ++ rest in
    let same : n ≡ suc (length ps + suc fuel) = omega arith in
    ap (λ k. receive_loop k no_message (holds (message_wire op first ps last rest) sent)) same
    ∙ receive_loop-first (length ps + suc fuel) op first (wires ps ++ tail) sent d vf
    ∙ receive_loop-wires (length ps + suc fuel) (suc fuel) op first.payload ps tail (sent ++ []) vp
        refl
    ∙ receive_loop-last fuel op (first.payload ++ text_of ps) last rest
        ((sent ++ []) ++ pongs_of ps) vl
    ∙ ap (λ s. returned ((first.payload ++ text_of ps) ++ last.payload) (holds rest s))
        (append-nil ((sent ++ []) ++ pongs_of ps) ∙ ap (λ s. s ++ pongs_of ps) (append-nil sent))

-- A text or binary message that a client sends in two fragments or more, with pings and pongs between
-- them, and whatever follows: `receive` returns the fragments' payloads joined in order, answers each
-- ping by a pong with its payload, and leaves what follows, however the stream is split into reads.
pub receive-message_wire :
    (c : Connection) (op : Opcode) (first : Masked) (ps : List Piece) (last : Masked)
    (rest : List ℕ)
    → All IsChunk c.incoming
    → (c.read_buffer ++ join_chunks c.incoming) ≡ message_wire op first ps last rest
    → IsData op
    → IsMasked first
    → All IsPiece ps
    → IsMasked last
    → on_stream (receive c)
      ≡ returned
          ((first.payload ++ text_of ps) ++ last.payload)
          (record { read_buffer = rest; incoming = []; sent = c.sent ++ pongs_of ps })
unfolding receive join_chunks on_stream
receive-message_wire c op first ps last rest h stream d vf vp vl =
    let bytes = message_wire op first ps last rest in
    on_stream-receive c h
    ∙ ap (λ b. on_stream (receive (holds b c.sent))) stream
    ∙ ap on_stream (
        receive_loop-message_wire (suc (length bytes + 0)) op first ps last rest c.sent d vf vp vl
          (omega (arith, length-message_wire op first ps last rest)))
    ∙ ap
        (λ b.
          returned ((first.payload ++ text_of ps) ++ last.payload)
            (holds b (c.sent ++ pongs_of ps)))
        (append-nil rest)
