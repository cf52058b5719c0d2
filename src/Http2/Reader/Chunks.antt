-- ===== src/Http2/Reader/Chunks.antt =====
-- `feed` does not depend on how its input is cut into calls.
use async_net.Base.{ℕ, zero, suc, ◌+◌, ◌-◌, ◌≤◌, ◌<◌, min, ◌≡◌, refl, arith}
use async_net.Base.{List, [], ◌∷◌, ◌++◌, length, take, drop, All, IsByte, append_assoc}
use async_net.Base.{◌==◌, if◌then◌else◌, append-nil, copy_at-append, take-append_ge, drop-append_ge}
use async_net.Base.{take-append_le, drop-append_le, take_all, drop_all, length-take, length-append}
use async_net.Base.{length-drop, All-drop}
use async_net.Http2.Reader.{Reader, parse_header, take_header, take_payload, feed_loop, feed}
use async_net.Http2.Reader.Rounds.{room, advance, feed_loop_stop, feed_loop_step, feed_loop-nil}
use async_net.Http2.Reader.Rounds.{feed_loop_fuel}
use async_net.Http2.Reader.Inv.{IsValid, advance-IsValid}
use native.Mathlib.Nat.{add_assoc}
use native.Mathlib.Decide.{ℕ_discrete, dec_le}

-- The first `n` bytes are all that a round reads.
advance-append :
    (r : Reader) (n : ℕ) (xs ys : List ℕ) → n ≤ length xs → advance r n (xs ++ ys) ≡ advance r n xs
unfolding advance take_header take_payload
advance-append r n xs ys h = rw (take-append_le n xs ys h)

-- A phase that one call leaves unfinished goes on in the next.
room-advance :
    (r : Reader) (xs : List ℕ)
    → IsValid r
    → length xs < room r
    → room (advance r (length xs) xs) ≡ room r - length xs
unfolding room advance parse_header take_header take_payload
room-advance r xs v h =
    ground (arith, length-append r.payload_buf (take (length xs) xs), length-take (length xs) xs)

advance-advance :
    (r : Reader) (xs ys : List ℕ) (n k : ℕ)
    → IsValid r
    → length xs < room r
    → n ≡ length xs + k
    → advance (advance r (length xs) xs) k ys ≡ advance r n (xs ++ ys)
unfolding room advance parse_header take_header take_payload
advance-advance r xs ys n k v h e = ground (
  arith,
  take_all (length xs) xs (omega arith),
  take-append_ge xs ys n k e,
  copy_at-append r.header_buf r.header_buf_len xs (take k ys) (r.header_buf_len + length xs) refl,
  append_assoc r.payload_buf xs (take k ys),
)

-- The call that follows, on `ys`, if the one that gave `p` consumed all of its input.
abbrev resume : ℕ → Reader × ℕ → List ℕ → ℕ → Reader × ℕ
resume fuel p ys total = if p.1 == total then feed_loop fuel p.0 ys p.1 else p

-- Where the phase ends beyond `xs`, one round over `xs ++ ys` is a round over each.
feed_loop_seam :
    (f k : ℕ) (r : Reader) (x : ℕ) (xs ys : List ℕ) (c : ℕ)
    → IsValid r
    → length (x ∷ xs) < room r
    → length xs + length ys ≤ f
    → length ys ≤ k
    → feed_loop (suc f) r (x ∷ (xs ++ ys)) c
      ≡ feed_loop k (advance r (length (x ∷ xs)) (x ∷ xs)) ys (c + length (x ∷ xs))
feed_loop_seam f k r x xs [] c v h hf hk =
    let n = length (x ∷ xs) in
    rw (
      append-nil,
      feed_loop_step f r x xs c n (omega arith) (omega arith),
      drop_all n (x ∷ xs) (omega arith),
      feed_loop-nil f (advance r n (x ∷ xs)) (c + n),
      feed_loop-nil k (advance r n (x ∷ xs)) (c + n),
    )
feed_loop_seam f zero r x xs (y ∷ ys) c v h hf hk = absurd (omega arith)
feed_loop_seam f (suc k) r x xs (y ∷ ys) c v h hf hk =
    let s = advance r (length (x ∷ xs)) (x ∷ xs) in
    let m = min (room s) (length (y ∷ ys)) in
    let n = length (x ∷ xs) + m in
    let room' : room s ≡ room r - length (x ∷ xs) = room-advance r (x ∷ xs) v h in
    rw
      (
        feed_loop_step f r x (xs ++ (y ∷ ys)) c n (omega arith)
            (omega (arith, length-append xs (y ∷ ys))),
        feed_loop_step k s y ys (c + length (x ∷ xs)) m (omega arith) refl,
        advance-advance r (x ∷ xs) (y ∷ ys) n m v h refl,
        drop-append_ge (x ∷ xs) (y ∷ ys) n m refl,
      )
      (ground (
        arith,
        feed_loop_fuel f k (advance r n (x ∷ (xs ++ (y ∷ ys)))) (drop m (y ∷ ys)) (c + n)
            (omega (arith, length-drop m (y ∷ ys))) (omega (arith, length-drop m (y ∷ ys))),
      ))

feed_loop-append :
    (f g k : ℕ) (r : Reader) (xs ys : List ℕ) (c : ℕ)
    → IsValid r
    → All IsByte xs
    → length xs + length ys ≤ f
    → length xs ≤ g
    → length ys ≤ k
    → feed_loop f r (xs ++ ys) c ≡ resume k (feed_loop g r xs c) ys (c + length xs)
feed_loop-append f g k r [] ys c v b hf hg hk =
    rw (feed_loop-nil g r c) (ground (arith, feed_loop_fuel f k r ys c (omega arith) hk))
feed_loop-append zero g k r (x ∷ xs) ys c v b hf hg hk = absurd (omega arith)
feed_loop-append (suc f) zero k r (x ∷ xs) ys c v b hf hg hk = absurd (omega arith)
feed_loop-append (suc f) (suc g) k r (x ∷ xs) ys c v b hf hg hk = elim (ℕ_discrete (room r) 0) [
  | yes e ↦
      rw (feed_loop_stop (suc f) r (x ∷ (xs ++ ys)) c e, feed_loop_stop (suc g) r (x ∷ xs) c e)
        (ground arith)
  | no ne ↦ elim (dec_le (room r) (length (x ∷ xs))) [
    | yes le ↦
        let n = room r in
        rw
          (
            feed_loop_step f r x (xs ++ ys) c n ne (omega (arith, length-append xs ys)),
            feed_loop_step g r x xs c n ne (omega arith),
            advance-append r n (x ∷ xs) ys le,
            drop-append_le n (x ∷ xs) ys le,
          )
          (ground (
            arith,
            length-drop n (x ∷ xs),
            feed_loop-append f g k (advance r n (x ∷ xs)) (drop n (x ∷ xs)) ys (c + n)
                (advance-IsValid r n (x ∷ xs) v b (omega arith) le) (All-drop IsByte n (x ∷ xs) b)
                (omega (arith, length-drop n (x ∷ xs))) (omega (arith, length-drop n (x ∷ xs))) hk,
          ))
    | no gt ↦
        let n = length (x ∷ xs) in
        rw
          (
            feed_loop_seam f k r x xs ys c v (omega arith) (omega arith) hk,
            feed_loop_step g r x xs c n (omega arith) (omega arith),
            drop_all n (x ∷ xs) (omega arith),
            feed_loop-nil g (advance r n (x ∷ xs)) (c + n),
          )
          (ground arith)
  ]
]

pub feed_loop_offset :
    (f : ℕ) (r : Reader) (input : List ℕ) (c d : ℕ)
    → feed_loop f r input (c + d) ≡ ((feed_loop f r input d).0, c + (feed_loop f r input d).1)
unfolding feed_loop
feed_loop_offset zero r input c d = refl
feed_loop_offset (suc f) r [] c d = refl
feed_loop_offset (suc f) r (b ∷ bs) c d = elim (ℕ_discrete (room r) 0) [
  | yes e ↦ rw (feed_loop_stop (suc f) r (b ∷ bs) (c + d) e, feed_loop_stop (suc f) r (b ∷ bs) d e)
  | no ne ↦
      let n = min (room r) (length (b ∷ bs)) in
      rw (feed_loop_step f r b bs (c + d) n ne refl, feed_loop_step f r b bs d n ne refl, add_assoc)
        (feed_loop_offset f (advance r n (b ∷ bs)) (drop n (b ∷ bs)) c (d + n))
]

-- One call of `feed` on `xs ++ ys` does what a call on `xs` does and, if that consumed all of
-- `xs`, a call on `ys` after it: the state is the same and the counts add up.
pub feed-append :
    (r : Reader) (xs ys : List ℕ)
    → IsValid r
    → All IsByte xs
    → feed r (xs ++ ys) ≡ (
        if (feed r xs).1 == length xs
        then ((feed (feed r xs).0 ys).0, (feed r xs).1 + (feed (feed r xs).0 ys).1)
        else feed r xs)
unfolding feed
feed-append r xs ys v h =
    let first = feed_loop (length xs) r xs 0 in
    ground (
      arith,
      feed_loop-append (length (xs ++ ys)) (length xs) (length ys) r xs ys 0 v h
          (omega (arith, length-append xs ys)) (omega arith) (omega arith),
      feed_loop_offset (length ys) first.0 ys first.1 0,
    )
