-- ===== src/WebSocket/Connection/Receive.antt =====
-- `receive` ends, and does not depend on how the network splits the stream.
use async_net.Base.{
  ℕ, zero, suc, ◌+◌, ◌≤◌, ◌<◌, ◌≡◌, ◌≢◌, refl, ap, sym, ◌∙◌, arith, List, [], ◌∷◌, ◌++◌,
}
use async_net.Base.{length, length-append, length-drop, drop, is_empty}
use async_net.Base.{All, inl, inr, Bool-cases}
use async_net.Base.{join_chunks}
use async_net.WebSocket.Frame.{Frame, parse_frame}
use async_net.WebSocket.Codec.Prefix.{parse_frame-append}
use async_net.WebSocket.Connection.{
  ReadResult, got, closed, read_frame, Message, Action, next, finish, no_message,
}
use async_net.WebSocket.Connection.{
  handle_frame, Connection, Received, returned, unfinished, receive_loop,
}
use async_net.WebSocket.Connection.{receive}
use async_net.WebSocket.Connection.Stream.{IsChunk, found, lacking, wrong, parse_of}
use async_net.WebSocket.Connection.Stream.{read_found, read_wrong, read_closed, read_on, read_empty}

bytes_left : ReadResult → ℕ
bytes_left (got f b cs) = length b + length (join_chunks cs)
bytes_left _ = 0

chunks_left : ReadResult → List (List ℕ)
chunks_left (got f b cs) = cs
chunks_left _ = []

thrown-ne-got : {f : Frame} {b : List ℕ} {cs : List (List ℕ)} → ReadResult.thrown ≡ got f b cs → ⊥
thrown-ne-got e = cc

closed-ne-got :
    {f : Frame} {b b' : List ℕ} {cs cs' : List (List ℕ)} → closed b' cs' ≡ got f b cs → ⊥
closed-ne-got e = cc

-- A frame takes two bytes of the stream at least.
read_frame_shorter :
    (buffer : List ℕ) (chunks : List (List ℕ)) (f : Frame) (b : List ℕ) (cs : List (List ℕ))
    → read_frame buffer chunks ≡ got f b cs
    → length b + length (join_chunks cs) + 2 ≤ length buffer + length (join_chunks chunks)
unfolding bytes_left join_chunks
read_frame_shorter buffer [] f b cs e = elim (parse_of buffer (parse_frame buffer) refl) [
  | found f' n p ↦
      let (_, two, inside) = parse_frame-append buffer [] f' n p in
      let same : length (drop n buffer) + 0 ≡ length b + length (join_chunks cs) =
        ap bytes_left (sym (read_found buffer [] f' n p) ∙ e) in
      omega (arith, two, inside, same, length-drop n buffer)
  | lacking p ↦ absurd (closed-ne-got (sym (read_closed buffer p) ∙ e))
  | wrong p ↦ absurd (thrown-ne-got (sym (read_wrong buffer [] p) ∙ e))
]
read_frame_shorter buffer (c ∷ rest) f b cs e = elim (parse_of buffer (parse_frame buffer) refl) [
  | found f' n p ↦
      let (_, two, inside) = parse_frame-append buffer [] f' n p in
      let same : length (drop n buffer) + length (c ++ join_chunks rest)
          ≡ length b + length (join_chunks cs) =
        ap bytes_left (sym (read_found buffer (c ∷ rest) f' n p) ∙ e) in
      omega (arith, two, inside, same, length-drop n buffer)
  | lacking p ↦ elim (Bool-cases (is_empty c)) [
    | inl none_read ↦ absurd (closed-ne-got (sym (read_empty buffer c rest p none_read) ∙ e))
    | inr some_read ↦
        let less =
          read_frame_shorter (buffer ++ c) rest f b cs
            (sym (read_on buffer c rest p some_read) ∙ e) in
        omega (arith, less, length-append buffer c, length-append c (join_chunks rest))
  ]
  | wrong p ↦ absurd (thrown-ne-got (sym (read_wrong buffer (c ∷ rest) p) ∙ e))
]

pub read_frame_chunks :
    (buffer : List ℕ) (chunks : List (List ℕ)) (f : Frame) (b : List ℕ) (cs : List (List ℕ))
    → All IsChunk chunks
    → read_frame buffer chunks ≡ got f b cs
    → All IsChunk cs
unfolding chunks_left
read_frame_chunks buffer [] f b cs h e = elim (parse_of buffer (parse_frame buffer) refl) [
  | found f' n p ↦
      let same : [] ≡ cs = ap chunks_left (sym (read_found buffer [] f' n p) ∙ e) in rw (← same) tt
  | lacking p ↦ absurd (closed-ne-got (sym (read_closed buffer p) ∙ e))
  | wrong p ↦ absurd (thrown-ne-got (sym (read_wrong buffer [] p) ∙ e))
]
read_frame_chunks buffer (c ∷ rest) f b cs h e = elim (parse_of buffer (parse_frame buffer) refl) [
  | found f' n p ↦
      let same : c ∷ rest ≡ cs = ap chunks_left (sym (read_found buffer (c ∷ rest) f' n p) ∙ e) in
      rw (← same) h
  | lacking p ↦
      read_frame_chunks (buffer ++ c) rest f b cs h.1 (sym (read_on buffer c rest p h.0) ∙ e)
  | wrong p ↦ absurd (thrown-ne-got (sym (read_wrong buffer (c ∷ rest) p) ∙ e))
]

pub receive_next :
    (fuel : ℕ) (m : Message) (c : Connection) (f : Frame) (b : List ℕ) (cs : List (List ℕ))
    (m' : Message) (out : List (List ℕ))
    → read_frame c.read_buffer c.incoming ≡ got f b cs
    → handle_frame m f ≡ next m' out
    → receive_loop (suc fuel) m c
      ≡ receive_loop fuel m' (record { read_buffer = b; incoming = cs; sent = c.sent ++ out })
unfolding receive_loop
receive_next fuel m c f b cs m' out e h = rw (e, receive_loop) (rw h refl)

pub receive_finish :
    (fuel : ℕ) (m : Message) (c : Connection) (f : Frame) (b : List ℕ) (cs : List (List ℕ))
    (r : List ℕ) (out : List (List ℕ))
    → read_frame c.read_buffer c.incoming ≡ got f b cs
    → handle_frame m f ≡ finish r out
    → receive_loop (suc fuel) m c
      ≡ returned r (record { read_buffer = b; incoming = cs; sent = c.sent ++ out })
unfolding receive_loop
receive_finish fuel m c f b cs r out e h = rw (e, receive_loop) (rw h refl)

pub receive_closed :
    (fuel : ℕ) (m : Message) (c : Connection) (b : List ℕ) (cs : List (List ℕ))
    → read_frame c.read_buffer c.incoming ≡ closed b cs
    → receive_loop (suc fuel) m c
      ≡ returned [] (record { read_buffer = b; incoming = cs; sent = c.sent })
unfolding receive_loop
receive_closed fuel m c b cs e = rw (e, receive_loop) refl

pub receive_thrown :
    (fuel : ℕ) (m : Message) (c : Connection)
    → read_frame c.read_buffer c.incoming ≡ ReadResult.thrown
    → receive_loop (suc fuel) m c ≡ Received.thrown
unfolding receive_loop
receive_thrown fuel m c e = rw (e, receive_loop) refl

-- One round of the loop.
pub data Round (m : Message) (c : Connection) : Type 0 where
  goes :
      (f : Frame) (b : List ℕ) (cs : List (List ℕ)) (m' : Message) (out : List (List ℕ))
      → read_frame c.read_buffer c.incoming ≡ got f b cs
      → handle_frame m f ≡ next m' out
      → Round m c
  ends :
      (f : Frame) (b : List ℕ) (cs : List (List ℕ)) (r : List ℕ) (out : List (List ℕ))
      → read_frame c.read_buffer c.incoming ≡ got f b cs
      → handle_frame m f ≡ finish r out
      → Round m c
  closes :
      (b : List ℕ) (cs : List (List ℕ))
      → read_frame c.read_buffer c.incoming ≡ closed b cs
      → Round m c
  throws : read_frame c.read_buffer c.incoming ≡ ReadResult.thrown → Round m c

handle_frame-Round :
    (m : Message) (c : Connection) (f : Frame) (b : List ℕ) (cs : List (List ℕ)) (a : Action)
    → read_frame c.read_buffer c.incoming ≡ got f b cs
    → handle_frame m f ≡ a
    → Round m c
handle_frame-Round m c f b cs (next m' out) e h = goes f b cs m' out e h
handle_frame-Round m c f b cs (finish r out) e h = ends f b cs r out e h

pub receive_loop-Round :
    (m : Message) (c : Connection) (r : ReadResult)
    → read_frame c.read_buffer c.incoming ≡ r
    → Round m c
receive_loop-Round m c (got f b cs) e = handle_frame-Round m c f b cs (handle_frame m f) e refl
receive_loop-Round m c (closed b cs) e = closes b cs e
receive_loop-Round m c ReadResult.thrown e = throws e

returned-ne-unfinished : {r : List ℕ} {c : Connection} → returned r c ≢ unfinished
returned-ne-unfinished e = cc

thrown-ne-unfinished : Received.thrown ≢ unfinished
thrown-ne-unfinished e = cc

receive_loop-finishes :
    (fuel : ℕ) (m : Message) (c : Connection)
    → length c.read_buffer + length (join_chunks c.incoming) < fuel
    → receive_loop fuel m c ≢ unfinished
receive_loop-finishes zero m c h e = absurd (omega arith)
receive_loop-finishes (suc fuel) m c h e =
    elim (receive_loop-Round m c (read_frame c.read_buffer c.incoming) refl) [
      | goes f b cs m' out r a ↦
          receive_loop-finishes fuel m'
            (record { read_buffer = b; incoming = cs; sent = c.sent ++ out })
            (omega (arith, read_frame_shorter c.read_buffer c.incoming f b cs r))
            (sym (receive_next fuel m c f b cs m' out r a) ∙ e)
      | ends f b cs s out r a ↦
          returned-ne-unfinished (sym (receive_finish fuel m c f b cs s out r a) ∙ e)
      | closes b cs r ↦ returned-ne-unfinished (sym (receive_closed fuel m c b cs r) ∙ e)
      | throws r ↦ thrown-ne-unfinished (sym (receive_thrown fuel m c r) ∙ e)
    ]

-- `receive` comes to an end on every finite stream: each frame takes bytes of it.
pub receive-finishes : (c : Connection) → receive c ≢ unfinished
unfolding receive
receive-finishes c =
    receive_loop-finishes (suc (length c.read_buffer + length (join_chunks c.incoming))) no_message
      c (omega arith)
