-- ===== src/Grpc/Deframer/Rounds.antt =====
-- The rounds of the loop of `stream_deframer::feed`.
use async_net.Base.{ℕ, suc, ◌+◌, ◌%◌, ◌^◌, ◌≤◌, ◌<◌, ◌≡◌, refl, ap, ap₂, ◌∙◌, arith, List, ◌++◌}
use async_net.Base.{length, length-drop, take, drop, take-append_le, drop-append_le, get_or-append}
use async_net.Base.{ltb, ltb_ge, lt→ltb, ltb→lt, true, false, Bool-cases, inl, inr}
use async_net.Grpc.Wire.{message_length}
use async_net.Grpc.Deframer.{Deframer, fed, undefined, emit_message, deframe_loop}

-- The deframer behind a message.
abbrev pub behind : Deframer → Deframer
behind d = record {
  buf = drop ((5 + message_length d.buf) % 2 ^ 32) d.buf;
  messages = emit_message d.messages (take (5 + message_length d.buf) d.buf);
}

-- The deframer with more bytes in its buffer.
abbrev pub with_more : Deframer → List ℕ → Deframer
with_more d ys = record d { buf = d.buf ++ ys }

-- The rounds: the loop stops, is undefined, or takes a message and goes on.
pub data Round (d : Deframer) : Type 0 where
  stops : ((fuel : ℕ) → deframe_loop (suc fuel) d ≡ fed d) → Round d
  fails :
      5 ≤ length d.buf
      → (5 + message_length d.buf) % 2 ^ 32 ≤ length d.buf
      → length d.buf < 5 + message_length d.buf
      → Round d
  goes : 5 + message_length d.buf ≤ length d.buf → Round d

pub stop_short : (d : Deframer) (fuel : ℕ) → length d.buf < 5 → deframe_loop (suc fuel) d ≡ fed d
unfolding deframe_loop
stop_short d fuel h = let short : ltb (length d.buf) 5 ≡ true = lt→ltb _ _ h in rw short refl

stop_part :
    (d : Deframer) (fuel : ℕ)
    → 5 ≤ length d.buf
    → length d.buf < (5 + message_length d.buf) % 2 ^ 32
    → deframe_loop (suc fuel) d ≡ fed d
unfolding deframe_loop
stop_part d fuel h part =
    let header : ltb (length d.buf) 5 ≡ false = ltb_ge _ _ h in
    let short : ltb (length d.buf) ((5 + message_length d.buf) % 2 ^ 32) ≡ true = lt→ltb _ _ part in
    rw (header, short) refl

pub deframe_fails :
    (d : Deframer) (fuel : ℕ)
    → 5 ≤ length d.buf
    → (5 + message_length d.buf) % 2 ^ 32 ≤ length d.buf
    → length d.buf < 5 + message_length d.buf
    → deframe_loop (suc fuel) d ≡ undefined
unfolding deframe_loop
deframe_fails d fuel h passes past =
    let header : ltb (length d.buf) 5 ≡ false = ltb_ge _ _ h in
    let wrapped : ltb (length d.buf) ((5 + message_length d.buf) % 2 ^ 32) ≡ false =
      ltb_ge _ _ passes in
    let outside : ltb (length d.buf) (5 + message_length d.buf) ≡ true = lt→ltb _ _ past in
    rw (header, wrapped, outside) refl

pub deframe_goes :
    (d : Deframer) (fuel : ℕ)
    → 5 + message_length d.buf ≤ length d.buf
    → length d.buf < 2 ^ 32
    → deframe_loop (suc fuel) d ≡ deframe_loop fuel (behind d)
unfolding deframe_loop
deframe_goes d fuel h small =
    let header : ltb (length d.buf) 5 ≡ false = ltb_ge _ _ (omega arith) in
    let whole : ltb (length d.buf) ((5 + message_length d.buf) % 2 ^ 32) ≡ false =
      ltb_ge _ _ (omega arith) in
    let inside : ltb (length d.buf) (5 + message_length d.buf) ≡ false = ltb_ge _ _ h in
    rw (header, whole, inside) refl

pub deframe_loop-Round : (d : Deframer) → Round d
deframe_loop-Round d = elim (Bool-cases (ltb (length d.buf) 5)) [
  | inl short ↦ stops (λ fuel. stop_short d fuel (ground arith))
  | inr header ↦ elim (Bool-cases (ltb (length d.buf) ((5 + message_length d.buf) % 2 ^ 32))) [
    | inl part ↦ stops (λ fuel. stop_part d fuel (ground arith) (ltb→lt _ _ part))
    | inr passes ↦ elim (Bool-cases (ltb (length d.buf) (5 + message_length d.buf))) [
      | inl past ↦ fails (ground arith) (ground arith) (ltb→lt _ _ past)
      | inr inside ↦ goes (ground arith)
    ]
  ]
]

-- A header says the same as more bytes arrive.
pub message_length-append :
    (xs ys : List ℕ) → 5 ≤ length xs → message_length (xs ++ ys) ≡ message_length xs
message_length-append xs ys h = omega (
  arith,
  get_or-append xs ys 1 0 (omega arith),
  get_or-append xs ys 2 0 (omega arith),
  get_or-append xs ys 3 0 (omega arith),
  get_or-append xs ys 4 0 (omega arith),
)

pub length-behind :
    (d : Deframer)
    → 5 + message_length d.buf ≤ length d.buf
    → length d.buf < 2 ^ 32
    → length (behind d).buf + 5 ≤ length d.buf
length-behind d h small = omega (arith, length-drop ((5 + message_length d.buf) % 2 ^ 32) d.buf)

-- A message that is there is taken in the same way as more bytes arrive.
pub behind-with_more :
    (d : Deframer) (ys : List ℕ)
    → 5 + message_length d.buf ≤ length d.buf
    → length d.buf < 2 ^ 32
    → behind (with_more d ys) ≡ with_more (behind d) ys
behind-with_more d ys h small =
    let same = message_length-append d.buf ys (omega arith) in
    let n = message_length d.buf in
    ap
      (λ k. record {
        buf = drop ((5 + k) % 2 ^ 32) (d.buf ++ ys);
        messages = emit_message d.messages (take (5 + k) (d.buf ++ ys));
      })
      same
    ∙ ap₂ (λ b t. record { buf = b; messages = emit_message d.messages t })
        (drop-append_le ((5 + n) % 2 ^ 32) d.buf ys (omega arith))
        (take-append_le (5 + n) d.buf ys h)
