-- ===== src/Http2/Reader/Inv.antt =====
-- The invariant of `frame_reader`, and that `feed` keeps it.
use async_net.Base.{ℕ, zero, suc, ◌+◌, ◌^◌, ◌≤◌, ◌<◌, min, ◌≡◌, refl, arith}
use async_net.Base.{
  List, [], ◌∷◌, length, take, drop, at, All, IsByte, All-copy_at, All-take, copy_at,
}
use async_net.Base.{All-drop, length-copy_at, length-take, length-append}
use async_net.Http2.Frame.{read_from}
use async_net.Http2.Reader.{Reader, size_max, parse_header, take_header, take_payload, feed_loop}
use async_net.Http2.Reader.{feed, new_reader, take_frame}
use async_net.Http2.Reader.Rounds.{room, advance, feed_loop_stop, feed_loop_step}
use native.Mathlib.Decide.{ℕ_discrete}

pub record IsValid (r : Reader) : Type 0 where
  pub header_size : length r.header_buf ≡ 9
  pub header_bytes : All IsByte r.header_buf
  pub header_in : r.header_buf_len ≤ 9
  pub unparsed : r.header_buf_len < 9 → (r.current_length ≡ size_max) × (r.payload_buf ≡ [])
  pub parsed : 9 ≤ r.header_buf_len → r.current_length < 2 ^ 24
  pub payload_in : length r.payload_buf ≤ r.current_length

at-IsByte : (xs : List ℕ) (i : ℕ) → All IsByte xs → at xs i < 256
at-IsByte [] i h = omega arith
at-IsByte (x ∷ xs) zero h = h.0
at-IsByte (x ∷ xs) (suc i) h = at-IsByte xs i h.1

-- The 24-bit length field is never the mark `SIZE_MAX`.
read_from-length-lt : (buf : List ℕ) → All IsByte buf → (read_from buf).length < 2 ^ 24
unfolding read_from
read_from-length-lt buf h = omega (arith, at-IsByte buf 0 h, at-IsByte buf 1 h, at-IsByte buf 2 h)

pub advance-IsValid :
    (r : Reader) (n : ℕ) (input : List ℕ)
    → IsValid r
    → All IsByte input
    → n ≤ room r
    → n ≤ length input
    → IsValid (advance r n input)
unfolding advance room parse_header take_header take_payload
advance-IsValid r n input v bytes hn hi =
    let buf = copy_at r.header_buf r.header_buf_len (take n input) in
    let bytes' : All IsByte buf =
      All-copy_at IsByte r.header_buf r.header_buf_len (take n input) v.header_bytes
        (All-take IsByte n input bytes) in
    ground (
      arith,
      bytes',
      length-copy_at r.header_buf r.header_buf_len (take n input),
      read_from-length-lt buf bytes',
      length-append r.payload_buf (take n input),
      length-take n input,
    )

feed_loop-IsValid :
    (fuel : ℕ) (r : Reader) (input : List ℕ) (c : ℕ)
    → IsValid r
    → All IsByte input
    → IsValid (feed_loop fuel r input c).0
unfolding feed_loop
feed_loop-IsValid zero r input c v h = v
feed_loop-IsValid (suc fuel) r [] c v h = v
feed_loop-IsValid (suc fuel) r (b ∷ bs) c v h = elim (ℕ_discrete (room r) 0) [
  | yes e ↦ rw (feed_loop_stop (suc fuel) r (b ∷ bs) c e) v
  | no ne ↦
      let n = min (room r) (length (b ∷ bs)) in
      rw (feed_loop_step fuel r b bs c n ne refl) (
        feed_loop-IsValid fuel (advance r n (b ∷ bs)) (drop n (b ∷ bs)) (c + n)
          (advance-IsValid r n (b ∷ bs) v h (omega arith) (omega arith))
          (All-drop IsByte n (b ∷ bs) h))
]

-- `feed` keeps the invariant, on every input of bytes.
pub feed-IsValid :
    (r : Reader) (input : List ℕ) → IsValid r → All IsByte input → IsValid (feed r input).0
unfolding feed
feed-IsValid r input v h = feed_loop-IsValid (length input) r input 0 v h

pub new_reader-IsValid : IsValid new_reader
new_reader-IsValid = record {
  header_size = refl;
  header_bytes = omega arith;
  header_in = omega arith;
  unparsed = λ h. (refl, refl);
  parsed = λ h. absurd (omega arith);
  payload_in = omega arith;
}

-- `take_frame` keeps the invariant too, and readies the reader for the next header.
pub take_frame-IsValid :
    (r : Reader) → IsValid r → IsValid (take_frame r).1 × (room (take_frame r).1 ≡ 9)
unfolding take_frame room
take_frame-IsValid r v = ground arith
