-- ===== src/Http3/Reader/Integers.antt =====
-- `feed_varint` on an integer that comes at once.
use async_net.Base.{
  ℕ, ◌+◌, ◌-◌, ◌^◌, ◌≤◌, ◌<◌, ◌≡◌, refl, ap, ap₂, sym, ◌∙◌, arith, min, List, [], ◌∷◌, ◌++◌,
}
use async_net.Base.{true, false, some, ◌==◌, length, length-append, take, at, copy_at}
use async_net.Base.{take-append_eq, append-nil}
use native.Mathlib.Nat.{zero-add}
use async_net.Http3.Varint.{varint, decode_varint}
use async_net.Http3.Varint.RoundTrip.{decode_varint-varint, one, two, four, eight, varint-Form}
use async_net.Http3.Reader.{Reader, bytes_expected, feed_varint}
use async_net.Http3.Reader.{start_varint, copy_varint, end_varint}

bytes_expected-varint :
    (v : ℕ) (rest : List ℕ)
    → v < 2 ^ 62
    → bytes_expected (at (varint v ++ rest) 0) ≡ length (varint v)
unfolding bytes_expected
bytes_expected-varint v rest h = elim (varint-Form v h) [
  | one below e ↦ rw e (ground arith)
  | two above below e ↦ rw e (ground arith)
  | four above below e ↦ rw e (ground arith)
  | eight above e ↦ rw e (ground arith)
]

take-overwrite : (b xs : List ℕ) → length xs ≤ length b → take (length xs) (copy_at b 0 xs) ≡ xs
take-overwrite b [] h = refl
take-overwrite [] (x ∷ xs) h = absurd (omega arith)
take-overwrite (y ∷ b) (x ∷ xs) h = ap (λ t. x ∷ t) (take-overwrite b xs (omega arith))

feed_varint_parts :
    (r s r' : Reader) (input : List ℕ) (accum n val : ℕ)
    → (length input == 0) ≡ false
    → start_varint r input ≡ s
    → min (s.varint_bytes_expected - s.varint_buf_len) (length input) ≡ n
    → end_varint (copy_varint s input n) accum ≡ (r', val)
    → feed_varint r input accum ≡ (r', val, n)
unfolding feed_varint
feed_varint_parts r s r' input accum n val some_input started copied ended =
    rw some_input (rw started (rw copied (rw ended refl)))

started : Reader → ℕ → Reader
started r n = record r { varint_bytes_expected = n; varint_buf_len = 0 }

start_varint-varint :
    (r : Reader) (v : ℕ) (rest : List ℕ)
    → v < 2 ^ 62
    → r.varint_bytes_expected ≡ 0
    → start_varint r (varint v ++ rest) ≡ started r (length (varint v))
unfolding start_varint started
start_varint-varint r v rest h e = rw e (rw (bytes_expected-varint v rest h) refl)

-- The reader behind an integer.
unfoldable pub behind_varint : Reader → ℕ → Reader
behind_varint r v = record r {
  varint_buf = copy_at r.varint_buf 0 (varint v);
  varint_buf_len = 0;
  varint_bytes_expected = 0;
  varint_complete = true;
}

end_varint_done :
    (r : Reader) (accum val n : ℕ)
    → (r.varint_buf_len == r.varint_bytes_expected) ≡ true
    → decode_varint (take r.varint_buf_len r.varint_buf) ≡ some (val, n)
    → end_varint r accum
      ≡ (record r { varint_complete = true; varint_bytes_expected = 0; varint_buf_len = 0 }, val)
unfolding end_varint
end_varint_done r accum val n all_there read = rw all_there (rw read refl)

end_varint-varint :
    (r : Reader) (v : ℕ) (rest : List ℕ) (accum : ℕ)
    → v < 2 ^ 62
    → length r.varint_buf ≡ 8
    → end_varint
        (copy_varint (started r (length (varint v))) (varint v ++ rest) (length (varint v)))
        accum
      ≡ (behind_varint r v, v)
unfolding copy_varint started behind_varint
end_varint-varint r v rest accum h size =
    let L = length (varint v) in
    let (read, pos, short) = decode_varint-varint v [] h in
    let cut : take L (varint v ++ rest) ≡ varint v = take-append_eq (varint v) rest L refl in
    let copied : take (0 + L) (copy_at r.varint_buf 0 (take L (varint v ++ rest))) ≡ varint v =
      ap₂ (λ k t. take k (copy_at r.varint_buf 0 t)) (zero-add L) cut
      ∙ take-overwrite r.varint_buf (varint v) (omega (arith, size, short)) in
    let all_there : (0 + L == L) ≡ true = ground arith in
    end_varint_done (copy_varint (started r L) (varint v ++ rest) L) accum v L all_there
      (ap decode_varint (copied ∙ sym (append-nil (varint v))) ∙ read)
    ∙ ap
        (λ t. (
          record r {
            varint_buf = copy_at r.varint_buf 0 t;
            varint_buf_len = 0;
            varint_bytes_expected = 0;
            varint_complete = true;
          },
          v,
        ))
        cut

-- All the bytes of an integer at once, from a reader with none of them.
pub feed_varint-varint :
    (r : Reader) (v : ℕ) (rest : List ℕ) (accum : ℕ)
    → v < 2 ^ 62
    → r.varint_bytes_expected ≡ 0
    → length r.varint_buf ≡ 8
    → feed_varint r (varint v ++ rest) accum ≡ (behind_varint r v, v, length (varint v))
feed_varint-varint r v rest accum h e size =
    let (_, pos, _) = decode_varint-varint v rest h in
    let long = length-append (varint v) rest in
    let some_input : (length (varint v ++ rest) == 0) ≡ false = ground (arith, pos, long) in
    let whole : min (length (varint v) - 0) (length (varint v ++ rest)) ≡ length (varint v) =
      omega (arith, long) in
    feed_varint_parts r (started r (length (varint v))) (behind_varint r v) (varint v ++ rest) accum
      (length (varint v)) v some_input (start_varint-varint r v rest h e) (unfold started in whole)
      (end_varint-varint r v rest accum h size)
