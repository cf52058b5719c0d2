-- ===== src/WebSocket/Connection.antt =====
-- `class websocket_connection` of include/async_net/http/websocket.hpp. The socket is the list of
-- what its reads return; behind the last of them, and at an empty one, the connection is closed.
pub mod Stream
pub mod Receive
pub mod Joined
pub mod Fragments
pub mod Writes
use async_net.Base.{ℕ, zero, suc, ◌+◌, List, [], ◌∷◌, ◌++◌, Bool, true, false, not, if◌then◌else◌}
use async_net.Base.{length, drop, take, ◌==◌, is_empty, byte_at, join_chunks}
use async_net.WebSocket.Frame.{Opcode, continuation, text, binary, close, ping, pong, Frame}
use async_net.WebSocket.Frame.{ParseResult, parsed, more, length_error, parse_frame, encode_frame}

-- What `read_frame` comes to, with the buffer and the reads that are left.
pub data ReadResult : Type 0 where
  got : Frame → List ℕ → List (List ℕ) → ReadResult
  closed : List ℕ → List (List ℕ) → ReadResult
  thrown : ReadResult

-- The buffer is parsed only where it is not empty.
unfoldable pub try_parse : List ℕ → ParseResult
try_parse buffer = if is_empty buffer then more else parse_frame buffer

unfoldable pub read_frame : List ℕ → List (List ℕ) → ReadResult
read_frame buffer [] = elim (try_parse buffer) [
  | parsed frm consumed ↦ got frm (drop consumed buffer) []
  | more ↦ closed buffer []
  | length_error ↦ thrown
]
read_frame buffer (chunk ∷ chunks) =
    let rest = read_frame (buffer ++ chunk) chunks in
    elim (try_parse buffer) [
      | parsed frm consumed ↦ got frm (drop consumed buffer) (chunk ∷ chunks)
      | more ↦ if is_empty chunk then closed buffer chunks else rest
      | length_error ↦ thrown
    ]

-- The variables of `receive`.
pub record Message : Type 0 where
  pub message : List ℕ
  pub msg_opcode : Opcode
  pub in_fragment : Bool

abbrev pub no_message : Message
no_message = record { message = []; msg_opcode = continuation; in_fragment = false }

-- What the `switch` of `receive` does: it goes on or returns, with what it has written by then.
pub data Action : Type 0 where
  next : Message → List (List ℕ) → Action
  finish : List ℕ → List (List ℕ) → Action

-- `case opcode::text` and `case opcode::binary`.
unfoldable pub start_message : Message → Frame → Action
start_message m frm =
    if frm.fin
    then finish frm.payload []
    else next (record { message = frm.payload; msg_opcode = frm.op; in_fragment = true }) []

unfoldable pub handle_frame : Message → Frame → Action
unfolding start_message
handle_frame m frm = elim frm.op [
  | close ↦ finish [] (encode_frame close [] true ∷ [])
  | ping ↦ next m (encode_frame pong frm.payload true ∷ [])
  | pong ↦ next m []
  | text ↦ start_message m frm
  | binary ↦ start_message m frm
  | continuation ↦
      if not m.in_fragment
      then finish [] []
      else if frm.fin
      then finish (m.message ++ frm.payload) []
      else next (record m { message = m.message ++ frm.payload }) []
  | Opcode.other n ↦ next m []
]

-- The connection: `read_buffer_`, the reads to come, and what went to `write_raw`, in order.
pub record Connection : Type 0 where
  pub read_buffer : List ℕ
  pub incoming : List (List ℕ)
  pub sent : List (List ℕ)

-- The returned string and the connection after it; `thrown` is an exception and `unfinished` a lack
-- of fuel.
pub data Received : Type 0 where
  returned : List ℕ → Connection → Received
  thrown unfinished : Received

-- The loop of `receive`, on fuel.
unfoldable pub receive_loop : ℕ → Message → Connection → Received
receive_loop zero m c = unfinished
receive_loop (suc fuel) m c = elim (read_frame c.read_buffer c.incoming) [
  | closed buffer chunks ↦
      returned [] (record { read_buffer = buffer; incoming = chunks; sent = c.sent })
  | ReadResult.thrown ↦ Received.thrown
  | got frm buffer chunks ↦ elim (handle_frame m frm) [
    | finish result out ↦
        returned result (record { read_buffer = buffer; incoming = chunks; sent = c.sent ++ out })
    | next m' out ↦
        receive_loop fuel m'
          (record { read_buffer = buffer; incoming = chunks; sent = c.sent ++ out })
  ]
]

-- A frame takes two bytes at least, so the loop has a round for each byte to come and one more.
unfoldable pub receive : Connection → Received
unfolding receive_loop join_chunks
receive c = receive_loop (suc (length c.read_buffer + length (join_chunks c.incoming))) no_message c

-- What `send`, `send_binary`, `ping` and `close` hand to `write_raw`.
unfoldable send : List ℕ → List ℕ
send msg = encode_frame text msg true

unfoldable send_binary : List ℕ → List ℕ
send_binary payload = encode_frame binary payload true

unfoldable ping_frame : List ℕ → List ℕ
ping_frame payload = encode_frame ping payload true

unfoldable close_frame : ℕ → List ℕ → List ℕ
close_frame code reason = encode_frame close (byte_at code 8 ∷ (byte_at code 0 ∷ reason)) true

-- `write_raw` on the numbers of bytes that the socket's writes take, 0 for an error, and what has
-- reached the socket. The first argument is what is left of the string.
unfoldable pub write_raw : List ℕ → List ℕ → Bool × List ℕ
write_raw [] writes = (true, [])
write_raw (b ∷ bs) [] = (false, [])
write_raw (b ∷ bs) (n ∷ writes) =
    let rest = write_raw (drop n (b ∷ bs)) writes in
    if n == 0 then (false, []) else (rest.0, take n (b ∷ bs) ++ rest.1)
