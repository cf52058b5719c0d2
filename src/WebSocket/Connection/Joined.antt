-- ===== src/WebSocket/Connection/Joined.antt =====
-- `receive` on a stream in pieces and on the same stream in one piece.
use async_net.Base.{ℕ, zero, suc, ◌+◌, ◌≡◌, refl, ap, sym, ◌∙◌, arith, List, [], ◌++◌}
use async_net.Base.{length, length-append, drop, append-nil, All}
use async_net.Base.{join_chunks}
use async_net.WebSocket.Frame.{parse_frame}
use async_net.WebSocket.Connection.{ReadResult, got, closed, read_frame, Message, no_message}
use async_net.WebSocket.Connection.{Connection, Received, returned, unfinished, receive_loop}
use async_net.WebSocket.Connection.{receive}
use async_net.WebSocket.Connection.Stream.{
  IsChunk, whole, whole-read_frame, found, lacking, wrong, parse_of,
}
use async_net.WebSocket.Connection.Stream.{read_found, read_wrong, read_closed}
use async_net.WebSocket.Connection.Receive.{
  read_frame_chunks, receive_next, receive_finish, receive_closed,
}
use async_net.WebSocket.Connection.Receive.{
  receive_thrown, goes, ends, closes, throws, receive_loop-Round,
}

-- The connection with all the bytes to come in its buffer.
abbrev pub joined : Connection → Connection
joined c = record c { read_buffer = c.read_buffer ++ join_chunks c.incoming; incoming = [] }

-- What `receive` comes to, with the bytes that are left in one piece.
unfoldable pub on_stream : Received → Received
on_stream (returned r c) = returned r (joined c)
on_stream Received.thrown = Received.thrown
on_stream unfinished = unfinished

whole_once : (b : List ℕ) → whole (read_frame b []) ≡ read_frame b []
unfolding whole join_chunks
whole_once b = elim (parse_of b (parse_frame b) refl) [
  | found f n e ↦ rw (read_found b [] f n e) (ap (λ t. got f t []) (append-nil (drop n b)))
  | lacking e ↦ rw (read_closed b e) (ap (λ t. closed t []) (append-nil b))
  | wrong e ↦ rw (read_wrong b [] e) refl
]

-- The round on the joined stream.
read_joined :
    (c : Connection) (r : ReadResult)
    → All IsChunk c.incoming
    → read_frame c.read_buffer c.incoming ≡ r
    → read_frame (joined c).read_buffer [] ≡ whole r
read_joined c r h e =
    sym (whole_once (c.read_buffer ++ join_chunks c.incoming))
    ∙ sym (whole-read_frame c.read_buffer c.incoming h)
    ∙ ap whole e

joined_twice :
    (b : List ℕ) (cs out : List (List ℕ))
    → joined (record { read_buffer = b ++ join_chunks cs; incoming = []; sent = out })
      ≡ joined (record { read_buffer = b; incoming = cs; sent = out })
unfolding join_chunks
joined_twice b cs out =
    ap (λ t. record { read_buffer = t; incoming = []; sent = out })
      (append-nil (b ++ join_chunks cs))

on_stream-receive_loop :
    (fuel : ℕ) (m : Message) (c : Connection)
    → All IsChunk c.incoming
    → on_stream (receive_loop fuel m c) ≡ on_stream (receive_loop fuel m (joined c))
unfolding on_stream whole
on_stream-receive_loop zero m c h = unfold receive_loop in refl
on_stream-receive_loop (suc fuel) m c h =
    elim (receive_loop-Round m c (read_frame c.read_buffer c.incoming) refl) [
      | goes f b cs m' out r a ↦
          let c' : Connection = record { read_buffer = b; incoming = cs; sent = c.sent ++ out } in
          ap on_stream (receive_next fuel m c f b cs m' out r a)
          ∙ on_stream-receive_loop fuel m' c'
              (read_frame_chunks c.read_buffer c.incoming f b cs h r)
          ∙ ap on_stream (
              sym (
                receive_next fuel m (joined c) f (b ++ join_chunks cs) [] m' out
                  (read_joined c _ h r) a))
      | ends f b cs s out r a ↦
          ap on_stream (receive_finish fuel m c f b cs s out r a)
          ∙ ap (returned s) (sym (joined_twice b cs (c.sent ++ out)))
          ∙ ap on_stream (
              sym (
                receive_finish fuel m (joined c) f (b ++ join_chunks cs) [] s out
                  (read_joined c _ h r) a))
      | closes b cs r ↦
          ap on_stream (receive_closed fuel m c b cs r)
          ∙ ap (returned []) (sym (joined_twice b cs c.sent))
          ∙ ap on_stream (
              sym (receive_closed fuel m (joined c) (b ++ join_chunks cs) [] (read_joined c _ h r)))
      | throws r ↦
          ap on_stream (receive_thrown fuel m c r)
          ∙ ap on_stream (sym (receive_thrown fuel m (joined c) (read_joined c _ h r)))
    ]

-- `receive` returns the same string, writes the same frames and leaves the same bytes for the next
-- call, however the stream is split into reads, none of which is empty.
pub on_stream-receive :
    (c : Connection)
    → All IsChunk c.incoming
    → on_stream (receive c) ≡ on_stream (receive (joined c))
unfolding receive join_chunks
on_stream-receive c h =
    let same : length (c.read_buffer ++ join_chunks c.incoming) + 0
        ≡ length c.read_buffer + length (join_chunks c.incoming) =
      omega (arith, length-append c.read_buffer (join_chunks c.incoming)) in
    on_stream-receive_loop (suc (length c.read_buffer + length (join_chunks c.incoming))) no_message
      c h
    ∙ ap (λ n. on_stream (receive_loop (suc n) no_message (joined c))) (sym same)
