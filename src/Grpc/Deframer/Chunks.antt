-- ===== src/Grpc/Deframer/Chunks.antt =====
-- How a stream is split into chunks does not matter to `stream_deframer`.
use async_net.Base.{ℕ, zero, suc, ◌+◌, ◌^◌, ◌<◌, ◌≡◌, ap, sym, ◌∙◌, arith, List, ◌++◌}
use async_net.Base.{length, length-append, append_assoc}
use async_net.Grpc.Deframer.{Deframer, deframe_loop, feed_data, and_then}
use async_net.Grpc.Deframer.Rounds.{
  behind, with_more, stops, fails, goes, deframe_loop-Round, deframe_fails,
}
use async_net.Grpc.Deframer.Rounds.{
  deframe_goes, message_length-append, length-behind, behind-with_more,
}

-- Fuel beyond the length of the buffer changes nothing.
deframe_loop_fuel :
    (f g : ℕ) (d : Deframer)
    → length d.buf < f
    → length d.buf < g
    → length d.buf < 2 ^ 32
    → deframe_loop f d ≡ deframe_loop g d
deframe_loop_fuel zero g d hf hg small = absurd (omega arith)
deframe_loop_fuel (suc f) zero d hf hg small = absurd (omega arith)
deframe_loop_fuel (suc f) (suc g) d hf hg small = elim (deframe_loop-Round d) [
  | stops h ↦ h f ∙ sym (h g)
  | fails h p o ↦ deframe_fails d f h p o ∙ sym (deframe_fails d g h p o)
  | goes h ↦
      deframe_goes d f h small
      ∙ deframe_loop_fuel f g (behind d) (omega (arith, length-behind d h small))
          (omega (arith, length-behind d h small)) (omega (arith, length-behind d h small))
      ∙ sym (deframe_goes d g h small)
]

deframe_loop-with_more :
    (f g : ℕ) (d : Deframer) (ys : List ℕ)
    → length d.buf < f
    → length (d.buf ++ ys) < g
    → length (d.buf ++ ys) < 2 ^ 32
    → deframe_loop g (with_more d ys) ≡ and_then (deframe_loop f d) (λ d'. feed_data d' ys)
unfolding feed_data
deframe_loop-with_more zero g d ys hf hg small = absurd (omega arith)
deframe_loop-with_more (suc f) zero d ys hf hg small = absurd (omega arith)
deframe_loop-with_more (suc f) (suc g) d ys hf hg small =
    let long = length-append d.buf ys in
    elim (deframe_loop-Round d) [
      | stops h ↦
          deframe_loop_fuel (suc g) (suc (length (d.buf ++ ys))) (with_more d ys) hg (omega arith)
            small
          ∙ ap (λ r. and_then r (λ d'. feed_data d' ys)) (sym (h f))
      | fails h p o ↦
          let same = message_length-append d.buf ys h in
          deframe_fails (with_more d ys) g (omega (arith, long)) (omega (arith, long, same))
            (omega (arith, long, same))
          ∙ ap (λ r. and_then r (λ d'. feed_data d' ys)) (sym (deframe_fails d f h p o))
      | goes h ↦
          let same = message_length-append d.buf ys (omega arith) in
          let shorter = length-behind d h (omega (arith, long)) in
          deframe_goes (with_more d ys) g (omega (arith, long, same)) small
          ∙ ap (deframe_loop g) (behind-with_more d ys h (omega (arith, long)))
          ∙ deframe_loop-with_more f g (behind d) ys (omega (arith, shorter))
              (omega (arith, shorter, long, length-append (behind d).buf ys))
              (omega (arith, shorter, long, length-append (behind d).buf ys))
          ∙ ap (λ r. and_then r (λ d'. feed_data d' ys))
              (sym (deframe_goes d f h (omega (arith, long))))
    ]

-- One call of `feed` with `xs ++ ys` is a call with `xs` and one with `ys`, also where it is
-- undefined. The buffer and the data are smaller than 2^32 bytes together.
pub feed_data-append :
    (d : Deframer) (xs ys : List ℕ)
    → length d.buf + length xs + length ys < 2 ^ 32
    → feed_data d (xs ++ ys) ≡ and_then (feed_data d xs) (λ d'. feed_data d' ys)
unfolding feed_data
feed_data-append d xs ys small =
    let size : length ((d.buf ++ xs) ++ ys) ≡ length d.buf + length xs + length ys =
      omega (arith, length-append (d.buf ++ xs) ys, length-append d.buf xs) in
    ap (λ b. deframe_loop (suc (length b)) (record d { buf = b })) (sym (append_assoc d.buf xs ys))
    ∙ deframe_loop-with_more (suc (length (d.buf ++ xs))) (suc (length ((d.buf ++ xs) ++ ys)))
        (record d { buf = d.buf ++ xs }) ys (omega arith) (omega arith) (omega (arith, size))
