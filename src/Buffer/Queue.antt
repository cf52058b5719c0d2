-- ===== src/Buffer/Queue.antt =====
-- `dynamic_buffer` is a queue of bytes: they come in behind and go out in front.
use async_net.Base.{Bool, ◌&&◌, leb}
use async_net.Base.{
  ℕ, zero, suc, ◌+◌, ◌-◌, ◌*◌, ◌≤◌, ◌≡◌, refl, ap, ap₂, sym, ◌∙◌, arith, min, max, List, [], ◌∷◌,
  ◌++◌,
}
use async_net.Base.{
  ltb, ◌==◌, length, length-append, length-take, take, drop, replicate, copy_at, length-copy_at,
  Bool-cases, inl, inr,
}
use async_net.Base.{take-append_le, drop-append_le, length-drop, true, drop-drop, drop_all}
use async_net.Buffer.{DynamicBuffer, prepare, store, commit, contents, consume}

pub record IsValid (b : DynamicBuffer) : Type 0 where
  pub ordered : b.read_pos ≤ b.write_pos
  pub inside : b.write_pos ≤ length b.bytes

length-replicate_zero : (n : ℕ) → length {A = ℕ} (replicate n 0) ≡ n
length-replicate_zero zero = refl
length-replicate_zero (suc n) = omega (arith, length-replicate_zero n)

take-drop-append :
    (i n : ℕ) (xs ys : List ℕ) → i + n ≤ length xs → take n (drop i (xs ++ ys)) ≡ take n (drop i xs)
take-drop-append i n xs ys h =
    ap (take n) (drop-append_le i xs ys (omega arith))
    ∙ take-append_le n (drop i xs) ys (omega (arith, length-drop i xs))

-- `prepare` makes room for `n` bytes and keeps the contents.
prepare_lem :
    (b : DynamicBuffer) (n : ℕ)
    → IsValid b
    → IsValid (prepare b n)
      × (contents (prepare b n) ≡ contents b)
      × (b.write_pos + n ≤ length (prepare b n).bytes)
      × ((prepare b n).write_pos ≡ b.write_pos)
      × ((prepare b n).read_pos ≡ b.read_pos)
unfolding prepare contents
prepare_lem b n v = elim (Bool-cases (ltb (length b.bytes) (b.write_pos + n))) [
  | inl short ↦
      let more = replicate (max (length b.bytes * 2) (b.write_pos + n) - length b.bytes) 0 in
      let long = length-append b.bytes more in
      let added =
        length-replicate_zero (max (length b.bytes * 2) (b.write_pos + n) - length b.bytes) in
      rw short (
        record { ordered = v.ordered; inside = omega (arith, v.inside, long) },
        take-drop-append b.read_pos (b.write_pos - b.read_pos) b.bytes more
            (omega (arith, v.ordered, v.inside)),
        omega (arith, long, added),
        refl,
        refl,
      )
  | inr room ↦ rw room (v, refl, ground arith, refl, refl)
]

take-nil : {A : Type 0} (n : ℕ) → take {A = A} n [] ≡ []
take-nil zero = refl
take-nil (suc n) = refl

drop-take : {A : Type 0} (r n : ℕ) (xs : List A) → take (n - r) (drop r xs) ≡ drop r (take n xs)
drop-take zero n xs = ap (λ k. take k xs) (omega arith)
drop-take (suc r) zero xs = ap (λ k. take k (drop (suc r) xs)) {y = 0} (omega arith)
drop-take (suc r) (suc n) [] = take-nil (suc n - suc r)
drop-take (suc r) (suc n) (x ∷ xs) = ap (λ k. take k (drop r xs)) (omega arith) ∙ drop-take r n xs

-- The text up to the end of what is copied into it.
take-copy_at :
    (w k : ℕ) (b xs : List ℕ)
    → k ≡ w + length xs
    → k ≤ length b
    → take k (copy_at b w xs) ≡ take w b ++ xs
take-copy_at zero zero b [] e h = refl
take-copy_at zero zero b (x ∷ xs) e h = absurd (omega arith)
take-copy_at zero (suc k) b [] e h = absurd (omega arith)
take-copy_at zero (suc k) [] (x ∷ xs) e h = absurd (omega arith)
take-copy_at zero (suc k) (y ∷ b) (x ∷ xs) e h =
    ap (λ s. x ∷ s) (take-copy_at zero k b xs (omega arith) (omega arith))
take-copy_at (suc w) zero b xs e h = absurd (omega arith)
take-copy_at (suc w) (suc k) [] xs e h = absurd (omega arith)
take-copy_at (suc w) (suc k) (y ∷ b) xs e h =
    ap (λ s. y ∷ s) (take-copy_at w k b xs (omega arith) (omega arith))

length-store : (b : DynamicBuffer) (input : List ℕ) → length (store b input).bytes ≡ length b.bytes
unfolding store
length-store b input = length-copy_at b.bytes b.write_pos input

-- What is stored in the region and committed comes behind the contents.
commit-store :
    (b : DynamicBuffer) (input : List ℕ)
    → IsValid b
    → b.write_pos + length input ≤ length b.bytes
    → contents (commit (store b input) (length input)) ≡ contents b ++ input
unfolding contents commit store
commit-store b input v h =
    ap
      (λ n.
        take (b.write_pos + n - b.read_pos) (drop b.read_pos (copy_at b.bytes b.write_pos input)))
      (omega (arith, length-copy_at b.bytes b.write_pos input))
    ∙ drop-take b.read_pos (b.write_pos + length input) _
    ∙ ap (drop b.read_pos) (take-copy_at b.write_pos _ b.bytes input refl h)
    ∙ drop-append_le b.read_pos (take b.write_pos b.bytes) input
        (omega (arith, v.ordered, v.inside, length-take b.write_pos b.bytes))
    ∙ ap (λ s. s ++ input) (sym (drop-take b.read_pos b.write_pos b.bytes))

commit-store-IsValid :
    (b : DynamicBuffer) (input : List ℕ)
    → IsValid b
    → IsValid (commit (store b input) (length input))
unfolding commit store
commit-store-IsValid b input v = record {
  ordered = omega (arith, v.ordered);
  inside = omega (arith, v.inside, length-copy_at b.bytes b.write_pos input);
}

-- `consume` takes bytes out in front.
consume_lem :
    (b : DynamicBuffer) (n : ℕ)
    → IsValid b
    → IsValid (consume b n) × (contents (consume b n) ≡ drop n (contents b))
unfolding consume contents
consume_lem b n v =
    let size = b.write_pos - b.read_pos in
    elim (Bool-cases (b.read_pos + min n size == b.write_pos)) [
      | inl all ↦ rw all (
        record { ordered = omega arith; inside = omega arith },
        sym (
            drop_all n (take size (drop b.read_pos b.bytes))
              (ground (arith, v.ordered, length-take size (drop b.read_pos b.bytes)))),
      )
      | inr some_left ↦
          let fewer : min n size ≡ n = ground (arith, v.ordered) in
          rw some_left (
            record { ordered = ground (arith, v.ordered); inside = v.inside },
            ap₂ take (ground arith) (drop-drop b.read_pos n _ b.bytes (omega arith))
                ∙ drop-take n size (drop b.read_pos b.bytes),
          )
    ]

-- What an owner does with a buffer: `put` asks for `n` bytes, stores bytes in them and commits these.
pub data Step : Type 0 where
  put : ℕ → List ℕ → Step
  get : ℕ → Step

unfoldable pub step : DynamicBuffer → Step → DynamicBuffer
unfolding commit store prepare consume
step b (put n input) = commit (store (prepare b n) input) (length input)
step b (get n) = consume b n

unfoldable pub run : DynamicBuffer → List Step → DynamicBuffer
unfolding step
run b [] = b
run b (s ∷ ss) = run (step b s) ss

-- The same steps on a queue of bytes.
unfoldable pub run_queue : List ℕ → List Step → List ℕ
run_queue queue [] = queue
run_queue queue (put n input ∷ ss) = run_queue (queue ++ input) ss
run_queue queue (get n ∷ ss) = run_queue (drop n queue) ss

-- No step stores more than it asked for.
unfoldable pub fit : List Step → Bool
fit [] = true
fit (put n input ∷ ss) = leb (length input) n && fit ss
fit (get n ∷ ss) = fit ss

step_put :
    (b : DynamicBuffer) (n : ℕ) (input : List ℕ)
    → IsValid b
    → length input ≤ n
    → IsValid (step b (put n input)) × (contents (step b (put n input)) ≡ contents b ++ input)
unfolding step
step_put b n input v h =
    let (v', same, room, w, r) = prepare_lem b n v in
    (
      commit-store-IsValid (prepare b n) input v',
      commit-store (prepare b n) input v' (omega arith) ∙ ap (λ s. s ++ input) same,
    )

-- After any steps of which none stores more than it asked for, a valid buffer is valid, and its
-- contents are those of a queue after the steps.
pub run-run_queue :
    (b : DynamicBuffer) (ss : List Step)
    → IsValid b
    → fit ss ≡ true
    → IsValid (run b ss) × (contents (run b ss) ≡ run_queue (contents b) ss)
unfolding run run_queue fit
run-run_queue b [] v h = (v, refl)
run-run_queue b (put n input ∷ ss) v h =
    let (v', e) = step_put b n input v (ground arith) in
    let (v'', e') = run-run_queue (step b (put n input)) ss v' (ground arith) in
    (v'', e' ∙ ap (λ queue. run_queue queue ss) e)
run-run_queue b (get n ∷ ss) v h =
    let (v', e) = consume_lem b n v in
    let (v'', e') = run-run_queue (step b (get n)) ss v' h in
    (v'', e' ∙ ap (λ queue. run_queue queue ss) e)
