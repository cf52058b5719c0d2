-- ===== src/Http2/Session/Inv/Windows.antt =====
-- The flow control of a DATA frame keeps the invariant of `http2_session::impl`.
use async_net.Base.{
  ℕ, ◌^◌, ◌≡◌, refl, Option-cases, inl, inr, some, none, ℤ, pos, ◌≤ℤ◌, ◌-ℤ◌, neg_part, arith,
  +ℤ_parts, -ℤ_parts, ◌<◌, eq_of_parts, sym, ap, ◌∙◌,
}
use mathlib.Core.Path.{subst}
use async_net.Http2.Reader
use async_net.Http2.Session.Streams.{find_stream-put_stream_self, put_stream-put_stream}
use async_net.Http2.Session.State.{Session, Stream, Streams, modify_stream, put_stream, find_stream}
use async_net.Http2.Session.Flow.{refill, spend, refill_connection, refill_stream, update_windows}
use async_net.Http2.Session.Inv.{
  IsValid, InWindow, StreamsIn, put_stream-StreamsIn, find_stream-InWindow,
}

-- A window that is not refilled still has half of its bytes.
refill-none : (w : ℤ) → refill w ≡ none → pos 32767 ≤ℤ w
unfolding refill
refill-none w e = ground arith

-- A window that is refilled is full, by what was granted.
refill-some :
    (w w' : ℤ) (increment : ℕ)
    → neg_part w < 2 ^ 24
    → refill w ≡ some (increment, w')
    → w' ≡ pos 65535
unfolding refill
refill-some w w' increment h e =
    eq_of_parts w' (pos 65535) (ground (arith, -ℤ_parts (pos 65535) w, +ℤ_parts w (pos increment)))

-- A window less a payload.
less :
    (w : ℤ) (n : ℕ)
    → InWindow w
    → n < 2 ^ 24
    → (neg_part (w -ℤ pos n) < 2 ^ 24) × (w -ℤ pos n ≤ℤ pos 65535)
unfolding ◌-ℤ◌
less w n v h = ground arith

-- What flow control leaves alone.
record Kept (s t : Session) : Type 0 where
  same_max : t.peer_max_frame_size ≡ s.peer_max_frame_size
  same_initial : t.peer_initial_window_size ≡ s.peer_initial_window_size
  same_reader : t.reader ≡ s.reader

refill_connection_lem :
    (s : Session)
    → neg_part s.conn_recv_window < 2 ^ 24
    → s.conn_recv_window ≤ℤ pos 65535
    → InWindow (refill_connection s).conn_recv_window
      × ((refill_connection s).streams ≡ s.streams)
      × Kept s (refill_connection s)
unfolding refill_connection
refill_connection_lem s low high = elim (Option-cases (refill s.conn_recv_window)) [
  | inl e ↦
      rw (e, refill_connection)
        (
          (refill-none s.conn_recv_window e, high),
          refl,
          record { same_max = refl; same_initial = refl; same_reader = refl },
        )
  | inr ((increment, w), e) ↦
      let full = refill-some s.conn_recv_window w increment low e in
      rw (e, refill_connection)
        (
          rw full (omega arith, omega arith),
          refl,
          record { same_max = refl; same_initial = refl; same_reader = refl },
        )
]

refill_stream_lem :
    (sid : ℕ) (s : Session) (ss : Stream) (m : Streams)
    → s.streams ≡ put_stream sid ss m
    → StreamsIn m
    → neg_part ss.recv_window < 2 ^ 24
    → ss.recv_window ≤ℤ pos 65535
    → StreamsIn (refill_stream sid s).streams
      × ((refill_stream sid s).conn_recv_window ≡ s.conn_recv_window)
      × Kept s (refill_stream sid s)
unfolding refill_stream
refill_stream_lem sid s ss m put h low high =
    let found : find_stream sid s.streams ≡ some ss =
      ap (find_stream sid) put ∙ find_stream-put_stream_self sid ss m in
    elim (Option-cases (refill ss.recv_window)) [
      | inl e ↦
          rw (found, refill_stream)
            (rw e (
              rw put (put_stream-StreamsIn sid ss m (refill-none ss.recv_window e, high) h),
              refl,
              record { same_max = refl; same_initial = refl; same_reader = refl },
            ))
      | inr ((increment, w), e) ↦
          let full = refill-some ss.recv_window w increment low e in
          let x = record ss { recv_window = w } in
          let restored : StreamsIn (put_stream sid x s.streams) =
            subst StreamsIn (sym (ap (put_stream sid x) put ∙ put_stream-put_stream sid x ss m))
              (put_stream-StreamsIn sid x m (rw full (omega arith, omega arith)) h) in
          rw (found, refill_stream)
            (rw e
              (restored, refl, record { same_max = refl; same_initial = refl; same_reader = refl }))
    ]

rebuilt :
    (s t : Session)
    → IsValid s
    → InWindow t.conn_recv_window
    → StreamsIn t.streams
    → Kept s t
    → IsValid t
rebuilt s t v w h k = record {
  limits = record {
    connection = w;
    each_stream = h;
    frame_low = omega (arith, v.frame_low, k.same_max);
    frame_high = omega (arith, v.frame_high, k.same_max);
    initial_window = omega (arith, v.initial_window, k.same_initial);
    reader_valid = subst Reader.Inv.IsValid (sym k.same_reader) v.reader_valid;
  };
}

-- Behind the flow control of a DATA frame every window is as the invariant says.
pub update_windows-IsValid :
    (sid n : ℕ) (s : Session) → n < 2 ^ 24 → IsValid s → IsValid (update_windows sid n s)
unfolding update_windows spend
update_windows-IsValid sid n s h v =
    let s₀ = record s { conn_recv_window = s.conn_recv_window -ℤ pos n } in
    let l = less s.conn_recv_window n v.connection h in
    elim (Option-cases (find_stream sid s.streams)) [
      | inl e ↦
          let c = refill_connection_lem s₀ l.0 l.1 in
          let t = refill_connection s₀ in
          let gone : find_stream sid t.streams ≡ none = ap (find_stream sid) c.1 ∙ e in
          rw (e, modify_stream)
            (rw (gone, refill_stream)
              (rebuilt s t v c.0 (subst StreamsIn (sym c.1) v.each_stream) (record {
                same_max = c.2.same_max;
                same_initial = c.2.same_initial;
                same_reader = c.2.same_reader;
              })))
      | inr (ss, e) ↦
          let s₁ = record s₀ { streams = put_stream sid (spend n ss) s.streams } in
          let c = refill_connection_lem s₁ l.0 l.1 in
          let t = refill_connection s₁ in
          let m = less ss.recv_window n (find_stream-InWindow sid s.streams ss v.each_stream e) h in
          let r = refill_stream_lem sid t (spend n ss) s.streams c.1 v.each_stream m.0 m.1 in
          rw (e, modify_stream)
            (rebuilt s (refill_stream sid t) v (subst InWindow (sym r.1) c.0) r.0 (record {
              same_max = r.2.same_max ∙ c.2.same_max;
              same_initial = r.2.same_initial ∙ c.2.same_initial;
              same_reader = r.2.same_reader ∙ c.2.same_reader;
            }))
    ]
