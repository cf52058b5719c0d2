-- ===== src/Http1/Chunks.antt =====
-- What `parse_body` of src/http/http1_codec.cpp promises for a body in chunks.
use async_net.Http.Text.Searching.{lacks}
use async_net.Base.{
  ℕ, zero, suc, ◌+◌, ◌%◌, ◌^◌, ◌<◌, ◌≤◌, ◌≡◌, refl, sym, List, [], ◌∷◌, ◌++◌, append_assoc, arith,
}
use async_net.Base.{
  ltb, ◌==◌, lt→ltb, true, false, Bool, ◌&&◌, not, is_empty, ap, ap₂, ◌∙◌, some, length,
  length-append, drop, drop-append_eq, take-append_eq, bytes, append-nil,
}
use async_net.Http1.Lines.{crlf, split_crlf}
use async_net.Http1.Body.{
  BodyResult, result, go, stop, hex_size, chunk_round, chunk_step, chunk_loop, parse_chunked,
}
use async_net.Http1.Fields.{split_crlf-line}
use async_net.Http1.Hex.{hex, hex_size-hex, lacks-hex}

unfoldable pub chunk_text : List ℕ → List ℕ
chunk_text c = hex (length c) ++ (crlf ++ (c ++ crlf))

-- A body in these chunks, with no trailers.
unfoldable pub chunks_text : List (List ℕ) → List ℕ
unfolding chunk_text
chunks_text [] = bytes "0" ++ (crlf ++ crlf)
chunks_text (c ∷ cs) = chunk_text c ++ chunks_text cs

unfoldable pub joined : List (List ℕ) → List ℕ
joined [] = []
joined (c ∷ cs) = c ++ joined cs

unfoldable pub are_chunks : List (List ℕ) → Bool
are_chunks [] = true
are_chunks (c ∷ cs) = not (is_empty c) && are_chunks cs

chunk_round-data :
    (acc c rest : List ℕ) (pos total : ℕ)
    → is_empty c ≡ false
    → pos + length c + 2 ≤ total
    → total < 2 ^ 64
    → chunk_round acc pos (c ++ rest) (length c) total ≡ go (pos + length c + 2) (acc ++ c)
unfolding chunk_round
chunk_round-data acc [] rest pos total ne h1 h2 = cc
chunk_round-data acc (x ∷ c) rest pos total ne h1 h2 =
    let small : (pos + suc (length c) + 2) % 2 ^ 64 ≡ pos + suc (length c) + 2 = omega arith in
    let enough : ltb total (pos + suc (length c) + 2) ≡ false = ground arith in
    let some_bytes : (suc (length c) == 0) ≡ false = ground arith in
    rw (small, chunk_round)
      (rw enough (rw some_bytes (rw (take-append_eq (x ∷ c) rest (suc (length c)) refl) refl)))

chunk_step-size :
    (input line rest acc : List ℕ) (pos size : ℕ)
    → split_crlf (drop pos input) ≡ some (line, rest)
    → hex_size line ≡ some size
    → chunk_step input pos acc ≡ chunk_round acc (pos + length line + 2) rest size (length input)
unfolding chunk_step
chunk_step-size input line rest acc pos size e1 e2 = rw (e1, chunk_step) (rw e2 refl)

chunk_loop-go :
    (fuel : ℕ) (input acc acc' : List ℕ) (pos pos' : ℕ)
    → pos < length input
    → chunk_step input pos acc ≡ go pos' acc'
    → chunk_loop (suc fuel) input pos acc ≡ chunk_loop fuel input pos' acc'
unfolding chunk_loop
chunk_loop-go fuel input acc acc' pos pos' h e =
    rw (lt→ltb pos (length input) h, chunk_loop) (rw e refl)

chunk_loop-stop :
    (fuel : ℕ) (input acc : List ℕ) (pos : ℕ) (r : BodyResult)
    → pos < length input
    → chunk_step input pos acc ≡ stop r
    → chunk_loop (suc fuel) input pos acc ≡ r
unfolding chunk_loop
chunk_loop-stop fuel input acc pos r h e = rw (lt→ltb pos (length input) h, chunk_loop) (rw e refl)

length-chunk_text :
    (c : List ℕ) → length (chunk_text c) ≡ length (hex (length c)) + 2 + length c + 2
unfolding chunk_text
length-chunk_text c =
    omega (arith, length-append (hex (length c)) (crlf ++ (c ++ crlf)), length-append c crlf)

chunk_text-append :
    (c more : List ℕ) → chunk_text c ++ more ≡ hex (length c) ++ (crlf ++ (c ++ (crlf ++ more)))
unfolding chunk_text
chunk_text-append c more =
    append_assoc (hex (length c)) (crlf ++ (c ++ crlf)) more
    ∙ ap (λ s. hex (length c) ++ (crlf ++ s)) (append_assoc c crlf more)

length-behind :
    (before c more : List ℕ)
    → length (before ++ (chunk_text c ++ more))
      ≡ length before + length (hex (length c)) + 2 + length c + 2 + length more
length-behind before c more = omega (
  arith,
  length-append before (chunk_text c ++ more),
  length-append (chunk_text c) more,
  length-chunk_text c,
)

-- A round on a chunk, behind `before` and in front of `more`.
chunk_step-chunk_text :
    (before c more acc : List ℕ)
    → is_empty c ≡ false
    → length (before ++ (chunk_text c ++ more)) < 2 ^ 64
    → chunk_step (before ++ (chunk_text c ++ more)) (length before) acc
      ≡ go (length (before ++ chunk_text c)) (acc ++ c)
chunk_step-chunk_text before c more acc ne h =
    chunk_step-size _ (hex (length c)) (c ++ (crlf ++ more)) acc (length before) (length c)
      (ap split_crlf (drop-append_eq before _ (length before) refl ∙ chunk_text-append c more)
        ∙ split_crlf-line (hex (length c)) _ (lacks-hex (length c)))
      (hex_size-hex (length c) (omega (arith, length-behind before c more)))
    ∙ chunk_round-data acc c (crlf ++ more) _ _ ne (omega (arith, length-behind before c more)) h
    ∙ ap (λ n. go n (acc ++ c))
        (omega (arith, length-append before (chunk_text c), length-chunk_text c))

chunk_round-zero :
    (acc rest : List ℕ) (pos total : ℕ)
    → pos + 2 ≤ total
    → chunk_round acc pos rest 0 total ≡ stop (result acc (pos + 2) true)
unfolding chunk_round
chunk_round-zero acc rest pos total h = ground arith

-- The round on the size 0, behind `before`.
chunk_step-last :
    (before tail acc : List ℕ)
    → chunk_step (before ++ (chunks_text [] ++ tail)) (length before) acc
      ≡ stop (result acc (length (before ++ chunks_text [])) true)
unfolding chunks_text hex_size lacks
chunk_step-last before tail acc =
    chunk_step-size _ (bytes "0") (crlf ++ tail) acc (length before) 0
      (ap split_crlf (drop-append_eq before _ (length before) refl)
        ∙ split_crlf-line (bytes "0") (crlf ++ tail) refl)
      refl
    ∙ chunk_round-zero acc _ _ _ (omega (arith, length-append before (chunks_text [] ++ tail)))
    ∙ ap (λ n. stop (result acc n true)) (omega (arith, length-append before (chunks_text [])))

chunk_loop-chunks_text :
    (fuel : ℕ) (before tail acc : List ℕ) (cs : List (List ℕ))
    → length cs < fuel
    → are_chunks cs ≡ true
    → length (before ++ (chunks_text cs ++ tail)) < 2 ^ 64
    → chunk_loop fuel (before ++ (chunks_text cs ++ tail)) (length before) acc
      ≡ result (acc ++ joined cs) (length (before ++ chunks_text cs)) true
unfolding chunks_text are_chunks joined
chunk_loop-chunks_text zero before tail acc cs hf hc h = absurd (omega arith)
chunk_loop-chunks_text (suc fuel) before tail acc [] hf hc h =
    chunk_loop-stop fuel _ acc _ _ (omega (arith, length-append before (chunks_text [] ++ tail)))
      (chunk_step-last before tail acc)
    ∙ ap (λ s. result s _ true) (sym (append-nil acc))
chunk_loop-chunks_text (suc fuel) before tail acc (c ∷ cs) hf hc h =
    ap (λ input. chunk_loop (suc fuel) input (length before) acc) inner
    ∙ chunk_loop-go fuel _ acc (acc ++ c) _ _
        (omega (arith, length-behind before c (chunks_text cs ++ tail)))
        (chunk_step-chunk_text before c (chunks_text cs ++ tail) acc (ground arith)
          (omega (arith, h, ap length inner)))
    ∙ ap (λ input. chunk_loop fuel input (length (before ++ chunk_text c)) (acc ++ c)) outer
    ∙ chunk_loop-chunks_text fuel (before ++ chunk_text c) tail (acc ++ c) cs (omega arith)
        (ground arith) (omega (arith, h, ap length inner, ap length outer))
    ∙ ap₂ (λ bd s. result bd (length s) true) (append_assoc acc c (joined cs))
        (append_assoc before (chunk_text c) (chunks_text cs))
  where
    inner :
        before ++ ((chunk_text c ++ chunks_text cs) ++ tail)
        ≡ before ++ (chunk_text c ++ (chunks_text cs ++ tail))
    inner = ap (λ s. before ++ s) (append_assoc (chunk_text c) (chunks_text cs) tail)

    outer :
        before ++ (chunk_text c ++ (chunks_text cs ++ tail))
        ≡ (before ++ chunk_text c) ++ (chunks_text cs ++ tail)
    outer = sym (append_assoc before (chunk_text c) (chunks_text cs ++ tail))

length-chunks_text : (cs : List (List ℕ)) → length cs < length (chunks_text cs)
unfolding chunks_text
length-chunks_text [] = omega arith
length-chunks_text (c ∷ cs) = omega (
  arith,
  length-chunks_text cs,
  length-append (chunk_text c) (chunks_text cs),
  length-chunk_text c,
)

-- A body in chunks that are not empty, with the chunk of size 0 last and fewer than 2^64 bytes in
-- all, is parsed as the chunks joined, whatever is behind it, and it is what is consumed.
pub parse_chunked-chunks_text :
    (cs : List (List ℕ)) (tail : List ℕ)
    → are_chunks cs ≡ true
    → length (chunks_text cs ++ tail) < 2 ^ 64
    → parse_chunked (chunks_text cs ++ tail) ≡ result (joined cs) (length (chunks_text cs)) true
unfolding parse_chunked
parse_chunked-chunks_text cs tail hc h =
    chunk_loop-chunks_text (suc (length (chunks_text cs ++ tail))) [] tail [] cs
      (omega (arith, length-chunks_text cs, length-append (chunks_text cs) tail)) hc h
