-- ===== src/Http2/Session/Inv.antt =====
-- The invariant of `http2_session::impl` and the operations on its map of streams.
pub mod Sending
pub mod Windows
pub mod Dispatching
pub mod Handling
pub mod Completing
pub mod Connection
pub mod Feeding
use async_net.Base.{
  ℕ, ◌+◌, ◌-◌, ◌*◌, ◌%◌, ◌^◌, ◌≤◌, ◌<◌, List, [], ◌∷◌, ◌≡◌, refl, arith, some, none, Option, Bool,
  true, false,
}
use async_net.Base.{
  Option-cases, Bool-cases, inl, inr, ◌==◌, if◌then◌else◌, ℤ, pos, negsuc, ◌+ℤ◌, ◌-ℤ◌, ◌≤ℤ◌,
  pos_part, neg_part, sub_ℕ, ltb_ℤ, All, length,
}
use async_net.Http.Message.{Request, Response}
use async_net.Http2.Reader
use async_net.Http2.Reader.{Reader}
use async_net.Http2.Reader.Inv.{new_reader-IsValid}
use async_net.Http2.Session.State.{
  Session, Stream, Streams, new_stream, find_stream, put_stream, erase_stream, stream_or_new,
  modify_stream, max_window_size, default_window_size, new_session, Mode, server, client, Handlers,
  PushPromiseInfo,
}
use async_net.Http2.Session.Flow.{refill}

-- What is left of a receive window that `refill` has seen.
abbrev pub InWindow : ℤ → Type 0
InWindow w = (pos 32767 ≤ℤ w) × (w ≤ℤ pos 65535)

abbrev pub StreamsIn : Streams → Type 0
StreamsIn m = All (λ (p : ℕ × Stream). InWindow p.1.recv_window) m

-- The invariant, by the parts of the state that it is about.
pub record Limits (conn : ℤ) (streams : Streams) (max_frame initial : ℕ) (reader : Reader)
    : Type 0 where
  pub connection : InWindow conn
  pub each_stream : StreamsIn streams
  pub frame_low : 16384 ≤ max_frame
  pub frame_high : max_frame ≤ 16777215
  pub initial_window : initial ≤ max_window_size
  pub reader_valid : Reader.Inv.IsValid reader

-- At least 32767 and at most 65535 bytes are left in the receive window of the connection and of
-- each stream, and the frame size and the initial window that the peer set are those that HTTP/2
-- allows; and the frame reader is valid.
pub record IsValid (s : Session) : Type 0 where
  pub limits :
      Limits s.conn_recv_window s.streams s.peer_max_frame_size s.peer_initial_window_size s.reader
  pub open limits use *

pub find_stream-InWindow :
    (sid : ℕ) (m : Streams) (ss : Stream)
    → StreamsIn m
    → find_stream sid m ≡ some ss
    → InWindow ss.recv_window
unfolding find_stream
find_stream-InWindow sid [] ss h e = cc
find_stream-InWindow sid ((key, x) ∷ m) ss h e = ground (arith, find_stream-InWindow sid m ss h.1)

pub put_stream-StreamsIn :
    (sid : ℕ) (ss : Stream) (m : Streams)
    → InWindow ss.recv_window
    → StreamsIn m
    → StreamsIn (put_stream sid ss m)
unfolding put_stream
put_stream-StreamsIn sid ss [] w h = (w, tt)
put_stream-StreamsIn sid ss ((key, x) ∷ m) w h =
    let rest = put_stream-StreamsIn sid ss m w h.1 in
    elim (Bool-cases (key == sid)) [ inl e ↦ rw e (w, h.1) | inr e ↦ rw e (h.0, rest) ]

pub erase_stream-StreamsIn : (sid : ℕ) (m : Streams) → StreamsIn m → StreamsIn (erase_stream sid m)
unfolding erase_stream
erase_stream-StreamsIn sid [] h = tt
erase_stream-StreamsIn sid ((key, x) ∷ m) h =
    let rest = erase_stream-StreamsIn sid m h.1 in
    elim (Bool-cases (key == sid)) [ inl e ↦ rw e h.1 | inr e ↦ rw e (h.0, rest) ]

pub stream_or_new-InWindow :
    (sid : ℕ) (m : Streams) → StreamsIn m → InWindow (stream_or_new sid m).recv_window
unfolding stream_or_new
stream_or_new-InWindow sid m h = elim (Option-cases (find_stream sid m)) [
  | inl e ↦ rw (e, stream_or_new) (omega arith, omega arith)
  | inr (ss, e) ↦ rw (e, stream_or_new) (find_stream-InWindow sid m ss h e)
]

-- Another map, with the rest of what the invariant is about unchanged.
pub with_streams :
    {s : Session} (m : Streams) → IsValid s → StreamsIn m → IsValid (record s { streams = m })
with_streams m v h = record {
  limits = record {
    connection = v.connection;
    each_stream = h;
    frame_low = v.frame_low;
    frame_high = v.frame_high;
    initial_window = v.initial_window;
    reader_valid = v.reader_valid;
  };
}

-- A change of a stream that leaves its receive window alone.
pub modify_stream-IsValid :
    (sid : ℕ) (change : Stream → Stream) (s : Session)
    → ((ss : Stream) → (change ss).recv_window ≡ ss.recv_window)
    → IsValid s
    → IsValid (modify_stream sid change s)
unfolding modify_stream
modify_stream-IsValid sid change s same v = elim (Option-cases (find_stream sid s.streams)) [
  | inl e ↦ rw (e, modify_stream) v
  | inr (ss, e) ↦
      let w = find_stream-InWindow sid s.streams ss v.each_stream e in
      rw (e, modify_stream)
        (with_streams _ v
          (put_stream-StreamsIn sid (change ss) s.streams (rw (same ss) w) v.each_stream))
]

-- What the handlers of the application are to keep.
pub record Keeps (P : Session → Type 0) (h : Handlers) : Type 0 where
  pub request :
      (f : Request → Session → Session × Response)
      → h.request_handler ≡ some f
      → (req : Request) (s : Session) → P s
      → P (f req s).0
  pub pushes :
      (f : Request → Session → Session × List (Request × Response))
      → h.push_provider ≡ some f
      → (req : Request) (s : Session) → P s
      → P (f req s).0
  pub streaming :
      (f : ℕ → Request → Session → Session × Bool)
      → h.streaming_request_handler ≡ some f
      → (sid : ℕ) (req : Request) (s : Session) → P s
      → P (f sid req s).0
  pub start :
      (f : ℕ → Request → Bool → Session → Session × Bool)
      → h.request_start_handler ≡ some f
      → (sid : ℕ) (req : Request) (end_stream : Bool) (s : Session) → P s
      → P (f sid req end_stream s).0
  pub push :
      (f : PushPromiseInfo → Session → Session)
      → h.push_handler ≡ some f
      → (info : PushPromiseInfo) (s : Session) → P s
      → P (f info s)
  pub on_data :
      (callback sid : ℕ) (input : List ℕ) (end_stream : Bool) (s : Session)
      → P s
      → P (h.data_callback callback sid input end_stream s)
  pub on_resume : (waiter : ℕ) (s : Session) → P s → P (h.resume waiter s)

-- A new session is valid.
pub new_session-IsValid : (mode : Mode) → IsValid (new_session mode)
unfolding new_session
new_session-IsValid mode = record {
  limits = record {
    connection = (omega arith, omega arith);
    each_stream = tt;
    frame_low = omega arith;
    frame_high = omega arith;
    initial_window = omega arith;
    reader_valid = new_reader-IsValid;
  };
}
