-- ===== src/Http/Text/Decimal.antt =====
-- `std::from_chars` on what `std::to_string` writes.
use async_net.Base.{ℕ, zero, suc, ◌+◌, ◌/◌, ◌%◌, ◌<◌, ◌≡◌, List, [], ◌∷◌, arith, inl, inr}
use async_net.Base.{ltb, lt→ltb, true, ap, ◌∙◌, if◌then◌else◌, ℤ, pos, Bool-cases}
use async_net.Http.Text.{decimal_loop, decimal, digits_value, is_digit, from_chars, magnitude}

number_or : ℕ → ℕ → ℤ → ℤ
number_or limit n init = if ltb n limit then pos n else init

from_chars_digit :
    (limit n : ℕ) (acc : List ℕ) (init : ℤ)
    → n < 10
    → from_chars limit ((b'0' + n % 10) ∷ acc) init ≡ number_or limit (digits_value acc n) init
unfolding from_chars magnitude digits_value is_digit number_or
from_chars_digit limit n acc init h = ground arith

digits_value_digit :
    (n : ℕ) (acc : List ℕ) → digits_value ((b'0' + n % 10) ∷ acc) (n / 10) ≡ digits_value acc n
unfolding digits_value is_digit
digits_value_digit n acc = ground arith

from_chars-decimal_loop :
    (limit fuel n : ℕ) (acc : List ℕ) (init : ℤ)
    → n < suc fuel
    → from_chars limit (decimal_loop (suc fuel) n acc) init
      ≡ number_or limit (digits_value acc n) init
unfolding decimal_loop
from_chars-decimal_loop limit zero n acc init h =
    let last : ltb n 10 ≡ true = ground arith in
    rw last (from_chars_digit limit n acc init (omega arith))
from_chars-decimal_loop limit (suc fuel) n acc init h = elim (Bool-cases (ltb n 10)) [
  | inl last ↦ rw last (from_chars_digit limit n acc init (ground arith))
  | inr more ↦ rw more (
      from_chars-decimal_loop limit fuel (n / 10) _ init (ground arith)
      ∙ ap (λ v. number_or limit v init) (digits_value_digit n acc))
]

-- A number within the bound of the type is read as it was written.
pub from_chars-decimal :
    (limit n : ℕ) (init : ℤ) → n < limit → from_chars limit (decimal n) init ≡ pos n
unfolding decimal number_or digits_value
from_chars-decimal limit n init h =
    from_chars-decimal_loop limit n n [] init (omega arith) ∙ rw (lt→ltb n limit h)
