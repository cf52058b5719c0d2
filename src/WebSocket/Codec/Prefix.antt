-- ===== src/WebSocket/Codec/Prefix.antt =====
-- More data behind a frame changes nothing of what `parse_frame` finds.
use async_net.Base.{ℕ, ◌+◌, ◌≤◌, ◌≡◌, refl, ap, sym, ◌∙◌, arith}
use async_net.Base.{List, [], ◌++◌, length, length-append, take, drop, at, get_or-append}
use async_net.Base.{take-append_le, drop-append_le, ltb, ltb_ge, length-drop}
use async_net.Base.{◌==◌, not, Bool, true, false, Bool-cases, inl, inr, some, none, bit_and}
use async_net.Base.{Option-cases, append-nil, ◌⊎◌}
use async_net.WebSocket.Codec.RoundTrip.{parse_frame_parts}
use async_net.WebSocket.Frame.{Opcode, Frame, opcode_of, read_length, read_mask, ParseResult}
use async_net.WebSocket.Frame.{parsed, more, length_error, take_payload, parse_frame}

take-drop-append :
    (i n : ℕ) (xs ys : List ℕ) → i + n ≤ length xs → take n (drop i (xs ++ ys)) ≡ take n (drop i xs)
take-drop-append i n xs ys h =
    ap (take n) (drop-append_le i xs ys (omega arith))
    ∙ take-append_le n (drop i xs) ys (omega (arith, length-drop i xs))

read_length-append :
    (xs ys : List ℕ) (l n pos : ℕ)
    → 2 ≤ length xs
    → read_length xs l ≡ some (n, pos)
    → (read_length (xs ++ ys) l ≡ some (n, pos)) × (2 ≤ pos) × (pos ≤ length xs)
unfolding read_length
read_length-append xs ys l n pos h e = ground (
  arith,
  length-append xs ys,
  get_or-append xs ys 2 0,
  get_or-append xs ys 3 0,
  take-drop-append 2 8 xs ys,
)

read_mask-append :
    (xs ys : List ℕ) (masked : Bool) (pos pos' : ℕ) (key : List ℕ)
    → pos ≤ length xs
    → read_mask xs masked pos ≡ some (key, pos')
    → (read_mask (xs ++ ys) masked pos ≡ some (key, pos')) × (pos ≤ pos') × (pos' ≤ length xs)
unfolding read_mask
read_mask-append xs ys false pos pos' key h e = ground arith
read_mask-append xs ys true pos pos' key h e =
    ground (arith, length-append xs ys, take-drop-append pos 4 xs ys)

take_payload-append :
    (xs ys : List ℕ) (fin : Bool) (op : Opcode) (masked : Bool) (key : List ℕ) (pos len : ℕ)
    (f : Frame) (n : ℕ)
    → pos ≤ length xs
    → take_payload xs fin op masked key pos len ≡ parsed f n
    → (take_payload (xs ++ ys) fin op masked key pos len ≡ parsed f n) × (pos ≤ n) × (n ≤ length xs)
unfolding take_payload
take_payload-append xs ys fin op masked key pos len f n h e =
    ground (arith, length-append xs ys, take-drop-append pos len xs ys)

take_payload-append_error :
    (xs ys : List ℕ) (fin : Bool) (op : Opcode) (masked : Bool) (key : List ℕ) (pos len : ℕ)
    → take_payload xs fin op masked key pos len ≡ length_error
    → take_payload (xs ++ ys) fin op masked key pos len ≡ length_error
unfolding take_payload
take_payload-append_error xs ys fin op masked key pos len e = ground (arith, length-append xs ys)

-- The parts that a parser that does not ask for more has read.
record Parts (xs : List ℕ) : Type 0 where
  two : 2 ≤ length xs
  len : ℕ
  pos : ℕ
  pos' : ℕ
  key : List ℕ
  read_len : read_length xs (bit_and (at xs 1) 0x7F) ≡ some (len, pos)
  read_key : read_mask xs (not (bit_and (at xs 1) 0x80 == 0)) pos ≡ some (key, pos')

no_length : (xs : List ℕ) → read_length xs (bit_and (at xs 1) 0x7F) ≡ none → parse_frame xs ≡ more
unfolding parse_frame
no_length xs e = elim (Bool-cases (ltb (length xs) 2)) [
  | inl low ↦ rw low refl
  | inr two ↦ rw two (rw e refl)
]

no_mask :
    (xs : List ℕ) (len pos : ℕ)
    → read_length xs (bit_and (at xs 1) 0x7F) ≡ some (len, pos)
    → read_mask xs (not (bit_and (at xs 1) 0x80 == 0)) pos ≡ none
    → parse_frame xs ≡ more
unfolding parse_frame
no_mask xs len pos e m = elim (Bool-cases (ltb (length xs) 2)) [
  | inl low ↦ rw low refl
  | inr two ↦ rw two (rw e (rw m refl))
]

no_header : (xs : List ℕ) → ltb (length xs) 2 ≡ true → parse_frame xs ≡ more
unfolding parse_frame
no_header xs low = rw low refl

parts : (xs : List ℕ) → (parse_frame xs ≡ more) ⊎ Parts xs
parts xs = elim (Bool-cases (ltb (length xs) 2)) [
  | inl low ↦ inl (no_header xs low)
  | inr two ↦ elim (Option-cases (read_length xs (bit_and (at xs 1) 0x7F))) [
    | inl e ↦ inl (no_length xs e)
    | inr ((len, pos), e) ↦
        elim (Option-cases (read_mask xs (not (bit_and (at xs 1) 0x80 == 0)) pos)) [
          | inl m ↦ inl (no_mask xs len pos e m)
          | inr ((key, pos'), m) ↦ inr (record {
            two = ground arith;
            len = len;
            pos = pos;
            pos' = pos';
            key = key;
            read_len = e;
            read_key = m;
          })
        ]
  ]
]

-- What the parser goes on to with its parts, and with more data behind them.
tail : (input xs : List ℕ) → Parts xs → ParseResult
tail input xs p =
    take_payload input (not (bit_and (at xs 0) 0x80 == 0)) (opcode_of (bit_and (at xs 0) 0x0F))
      (not (bit_and (at xs 1) 0x80 == 0)) p.key p.pos' p.len

parse_frame-tail : (xs ys : List ℕ) (p : Parts xs) → parse_frame (xs ++ ys) ≡ tail (xs ++ ys) xs p
unfolding tail
parse_frame-tail xs ys p =
    let first : at (xs ++ ys) 0 ≡ at xs 0 = get_or-append xs ys 0 0 (omega (arith, p.two)) in
    let second : at (xs ++ ys) 1 ≡ at xs 1 = get_or-append xs ys 1 0 (omega (arith, p.two)) in
    let (len, low, high) = read_length-append xs ys _ p.len p.pos p.two p.read_len in
    let (key, _, _) = read_mask-append xs ys _ p.pos p.pos' p.key high p.read_key in
    parse_frame_parts (xs ++ ys) (bit_and (at xs 1) 0x80) p.len p.pos p.pos' p.key _ _
      (ltb_ge _ _ (omega (arith, p.two, length-append xs ys))) (ap (λ b. bit_and b 0x80) second)
      (ap (λ b. read_length (xs ++ ys) (bit_and b 0x7F)) second ∙ len) key
      (ap (λ b. opcode_of (bit_and b 0x0F)) first) (ap (λ b. not (bit_and b 0x80 == 0)) first)

tail_inside : (xs : List ℕ) (p : Parts xs) → (2 ≤ p.pos') × (p.pos' ≤ length xs)
tail_inside xs p =
    let (_, low, high) = read_length-append xs [] _ p.len p.pos p.two p.read_len in
    let (_, up, inside) = read_mask-append xs [] _ p.pos p.pos' p.key high p.read_key in
    (omega (arith, low, up), inside)

parse_frame_whole : (xs : List ℕ) (p : Parts xs) → parse_frame xs ≡ tail xs xs p
parse_frame_whole xs p =
    ap parse_frame (sym (append-nil xs))
    ∙ parse_frame-tail xs [] p
    ∙ ap (λ t. tail t xs p) (append-nil xs)

more-ne-parsed : {f : Frame} {n : ℕ} → more ≡ parsed f n → ⊥
more-ne-parsed e = cc

more-ne-length_error : more ≡ length_error → ⊥
more-ne-length_error e = cc

-- A frame that is found stays found as more data arrives, with the same bytes consumed: these are
-- two at least and no more than there were.
pub parse_frame-append :
    (xs ys : List ℕ) (f : Frame) (n : ℕ)
    → parse_frame xs ≡ parsed f n
    → (parse_frame (xs ++ ys) ≡ parsed f n) × (2 ≤ n) × (n ≤ length xs)
unfolding tail
parse_frame-append xs ys f n e = elim (parts xs) [
  | inl m ↦ absurd (more-ne-parsed (sym m ∙ e))
  | inr p ↦
      let (low, inside) = tail_inside xs p in
      let here : tail xs xs p ≡ parsed f n = sym (parse_frame_whole xs p) ∙ e in
      let (found, above, within) =
        take_payload-append xs ys _ _ _ p.key p.pos' p.len f n inside here in
      (parse_frame-tail xs ys p ∙ found, omega (arith, low, above), within)
]

-- A length that no string can have stays one.
pub parse_frame-append_error :
    (xs ys : List ℕ) → parse_frame xs ≡ length_error → parse_frame (xs ++ ys) ≡ length_error
unfolding tail
parse_frame-append_error xs ys e = elim (parts xs) [
  | inl m ↦ absurd (more-ne-length_error (sym m ∙ e))
  | inr p ↦
      let here : tail xs xs p ≡ length_error = sym (parse_frame_whole xs p) ∙ e in
      parse_frame-tail xs ys p ∙ take_payload-append_error xs ys _ _ _ p.key p.pos' p.len here
]
