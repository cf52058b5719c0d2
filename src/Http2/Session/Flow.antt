-- ===== src/Http2/Session/Flow.antt =====
-- The flow control of `handle_data` in src/http/http2_session.cpp.
use async_net.Base.{ℕ, ◌/◌, ◌%◌, ◌^◌}
use async_net.Base.{Option, none, some, if◌then◌else◌}
use async_net.Base.{ℤ, pos, ltb_ℤ, ◌+ℤ◌, ◌-ℤ◌, pos_part}
use async_net.Http2.Frame.{build_window_update}
use async_net.Http2.Session.State.{
  Session, Stream, default_window_size, find_stream, put_stream, modify_stream, enqueue,
}

-- The window that `handle_data` restores when less than half of it is left, and the increment.
unfoldable pub refill : ℤ → Option (ℕ × ℤ)
unfolding ◌+ℤ◌ ◌-ℤ◌
refill window =
    if ltb_ℤ window (pos (default_window_size / 2))
    then (let increment = pos_part (pos default_window_size -ℤ window) % 2 ^ 32 in
        some (increment, window +ℤ pos increment))
    else none

unfoldable pub spend : ℕ → Stream → Stream
unfolding ◌-ℤ◌
spend n ss = record ss { recv_window = ss.recv_window -ℤ pos n }

-- The connection's window.
unfoldable pub refill_connection : Session → Session
unfolding refill
refill_connection s = elim (refill s.conn_recv_window) [
  | none ↦ s
  | some (increment, window) ↦ record (enqueue s (build_window_update 0 increment)) {
    conn_recv_window = window;
  }
]

-- The window of a stream.
unfoldable pub refill_stream : ℕ → Session → Session
unfolding refill find_stream put_stream
refill_stream sid s = elim (find_stream sid s.streams) [
  | none ↦ s
  | some ss ↦ elim (refill ss.recv_window) [
    | none ↦ s
    | some (increment, window) ↦ record (enqueue s (build_window_update sid increment)) {
      streams = put_stream sid (record ss { recv_window = window }) s.streams;
    }
  ]
]

-- The flow control of `handle_data` for `n` bytes.
unfoldable pub update_windows : ℕ → ℕ → Session → Session
unfolding spend refill_connection refill_stream modify_stream
update_windows sid n s =
    let s₁ = record s { conn_recv_window = s.conn_recv_window -ℤ pos n } in
    refill_stream sid (refill_connection (modify_stream sid (spend n) s₁))
