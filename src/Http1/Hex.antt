-- ===== src/Http1/Hex.antt =====
-- The size in front of a chunk as a sender writes it, and `hex_size` on it.
use async_net.Http.Text.Searching.{lacks}
use async_net.Base.{
  ℕ, zero, suc, ◌+◌, ◌*◌, ◌/◌, ◌%◌, ◌^◌, ◌<◌, ◌≡◌, refl, List, [], ◌∷◌, arith, inl, inr, leb,
}
use async_net.Base.{ltb, lt→ltb, true, ap, ◌∙◌, if◌then◌else◌, Option, none, some, Bool-cases}
use async_net.Http1.Body.{hex_value, hex_digits, hex_size}

unfoldable pub hex_digit : ℕ → ℕ
hex_digit d = if ltb d 10 then 48 + d else 87 + d

unfoldable hex_loop : ℕ → ℕ → List ℕ → List ℕ
unfolding hex_digit
hex_loop zero n acc = acc
hex_loop (suc fuel) n acc =
    let rest = hex_loop fuel (n / 16) (hex_digit (n % 16) ∷ acc) in
    if ltb n 16 then hex_digit n ∷ acc else rest

-- The digits of a number with the base 16, in lower case.
unfoldable pub hex : ℕ → List ℕ
unfolding hex_loop
hex n = hex_loop (suc n) n []

hex_value-hex_digit : (d : ℕ) → d < 16 → hex_value (hex_digit d) ≡ d
unfolding hex_value hex_digit
hex_value-hex_digit d h = ground arith

size_or_none : ℕ → Option ℕ
size_or_none n = if ltb n (2 ^ 64) then some n else none

hex_digits-cons :
    (d v : ℕ) (acc : List ℕ)
    → d < 16
    → hex_digits (hex_digit d ∷ acc) v ≡ hex_digits acc (v * 16 + d)
unfolding hex_digits
hex_digits-cons d v acc h = rw (hex_value-hex_digit d h) (rw (lt→ltb d 16 h) refl)

size_or_none_lem : (m : ℕ) → (if leb (2 ^ 64) m then none else some m) ≡ size_or_none m
unfolding size_or_none
size_or_none_lem m = ground arith

hex_size_digit :
    (n : ℕ) (acc : List ℕ) → n < 16 → hex_size (hex_digit n ∷ acc) ≡ size_or_none (hex_digits acc n)
unfolding hex_size
hex_size_digit n acc h = rw (hex_value-hex_digit n h) (
    rw (lt→ltb n 16 h) (
      size_or_none_lem (hex_digits acc (0 * 16 + n))
      ∙ ap (λ m. size_or_none (hex_digits acc m)) (omega arith)))

hex_size-hex_loop :
    (fuel n : ℕ) (acc : List ℕ)
    → n < suc fuel
    → hex_size (hex_loop (suc fuel) n acc) ≡ size_or_none (hex_digits acc n)
unfolding hex_loop
hex_size-hex_loop zero n acc h =
    let last : ltb n 16 ≡ true = ground arith in rw last (hex_size_digit n acc (omega arith))
hex_size-hex_loop (suc fuel) n acc h = elim (Bool-cases (ltb n 16)) [
  | inl last ↦ rw last (hex_size_digit n acc (ground arith))
  | inr more ↦ rw more (
      hex_size-hex_loop fuel (n / 16) (hex_digit (n % 16) ∷ acc) (ground arith)
      ∙ ap size_or_none
          (hex_digits-cons (n % 16) (n / 16) acc (omega arith) ∙ ap (hex_digits acc) (omega arith)))
]

pub hex_size-hex : (n : ℕ) → n < 2 ^ 64 → hex_size (hex n) ≡ some n
unfolding hex size_or_none hex_digits
hex_size-hex n h = hex_size-hex_loop n n [] (omega arith) ∙ rw (lt→ltb n (2 ^ 64) h) refl

lacks-hex_digit :
    (d : ℕ) (acc : List ℕ) → lacks b'\r' acc ≡ true → lacks b'\r' (hex_digit d ∷ acc) ≡ true
unfolding lacks hex_digit
lacks-hex_digit d acc h = ground arith

lacks-hex_loop :
    (fuel n : ℕ) (acc : List ℕ) → lacks b'\r' acc ≡ true → lacks b'\r' (hex_loop fuel n acc) ≡ true
unfolding hex_loop
lacks-hex_loop zero n acc h = h
lacks-hex_loop (suc fuel) n acc h = elim (Bool-cases (ltb n 16)) [
  | inl last ↦ rw last (lacks-hex_digit n acc h)
  | inr more ↦ rw more (lacks-hex_loop fuel (n / 16) _ (lacks-hex_digit (n % 16) acc h))
]

pub lacks-hex : (n : ℕ) → lacks b'\r' (hex n) ≡ true
unfolding hex lacks
lacks-hex n = lacks-hex_loop (suc n) n [] refl
