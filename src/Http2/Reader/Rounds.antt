-- ===== src/Http2/Reader/Rounds.antt =====
-- The rounds of `frame_reader::feed`, the reader's invariant, and that the fuel suffices.
use async_net.Base.{ℕ, zero, suc, ◌+◌, ◌-◌, ◌≤◌, min, ◌≡◌, ◌≢◌, refl, arith}
use async_net.Base.{List, [], ◌∷◌, none, some, ltb, ◌==◌, if◌then◌else◌, length}
use async_net.Base.{drop}
use async_net.Base.{length-drop}
use async_net.Http2.Reader.{Reader, parse_header, take_header, take_payload, feed_round}
use async_net.Http2.Reader.{feed_loop}
use native.Mathlib.Decide.{ℕ_discrete}

-- How many bytes the reader still takes in its present phase.
unfoldable pub room : Reader → ℕ
room r =
    if ltb r.header_buf_len 9 then 9 - r.header_buf_len else r.current_length - length r.payload_buf

-- What a round does with the first `n` bytes of the input.
unfoldable pub advance : Reader → ℕ → List ℕ → Reader
advance r n input =
    if ltb r.header_buf_len 9
    then parse_header (take_header r n input)
    else parse_header (take_payload r n input)

pub feed_round_lem :
    (r : Reader) (input : List ℕ)
    → feed_round r input ≡ (
        if room r == 0
        then none
        else some (advance r (min (room r) (length input)) input, min (room r) (length input)))
unfolding feed_round room advance
feed_round_lem r input = ground arith

pub feed_loop_stop :
    (fuel : ℕ) (r : Reader) (input : List ℕ) (c : ℕ)
    → room r ≡ 0
    → feed_loop fuel r input c ≡ (r, c)
unfolding feed_loop
feed_loop_stop zero r input c h = refl
feed_loop_stop (suc fuel) r [] c h = refl
feed_loop_stop (suc fuel) r (b ∷ bs) c h = ground (arith, feed_round_lem r (b ∷ bs))

pub feed_loop_step :
    (fuel : ℕ) (r : Reader) (b : ℕ) (bs : List ℕ) (c n : ℕ)
    → room r ≢ 0
    → n ≡ min (room r) (length (b ∷ bs))
    → feed_loop (suc fuel) r (b ∷ bs) c
      ≡ feed_loop fuel (advance r n (b ∷ bs)) (drop n (b ∷ bs)) (c + n)
unfolding feed_loop
feed_loop_step fuel r b bs c n h e = rw e (ground (arith, feed_round_lem r (b ∷ bs)))

pub feed_loop-nil : (fuel : ℕ) (r : Reader) (c : ℕ) → feed_loop fuel r [] c ≡ (r, c)
unfolding feed_loop
feed_loop-nil zero r c = refl
feed_loop-nil (suc fuel) r c = refl

-- Each round takes a byte, so fuel for each byte is enough: more of it changes nothing.
pub feed_loop_fuel :
    (f g : ℕ) (r : Reader) (input : List ℕ) (c : ℕ)
    → length input ≤ f
    → length input ≤ g
    → feed_loop f r input c ≡ feed_loop g r input c
feed_loop_fuel f g r [] c hf hg = rw (feed_loop-nil f r c, feed_loop-nil g r c)
feed_loop_fuel zero g r (b ∷ bs) c hf hg = absurd (omega arith)
feed_loop_fuel (suc f) zero r (b ∷ bs) c hf hg = absurd (omega arith)
feed_loop_fuel (suc f) (suc g) r (b ∷ bs) c hf hg = elim (ℕ_discrete (room r) 0) [
  | yes e ↦ rw (feed_loop_stop (suc f) r _ c e, feed_loop_stop (suc g) r _ c e)
  | no ne ↦
      let n = min (room r) (length (b ∷ bs)) in
      rw (feed_loop_step f r b bs c n ne refl, feed_loop_step g r b bs c n ne refl)
        (feed_loop_fuel f g (advance r n (b ∷ bs)) (drop n (b ∷ bs)) (c + n)
          (omega (arith, length-drop n (b ∷ bs))) (omega (arith, length-drop n (b ∷ bs))))
]
