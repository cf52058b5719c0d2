-- ===== src/Http/Text.antt =====
-- What the sources use of the C++ library on text: `std::tolower` in the "C" locale,
-- `std::to_string`, `std::from_chars` and the searches of `std::string`.
pub mod Decimal
pub mod Searching
use async_net.Base.{ℕ, zero, suc, ◌+◌, ◌-◌, ◌*◌, ◌/◌, ◌%◌, List, [], ◌∷◌, Bool, true, false, ◌&&◌}
use async_net.Base.{Option, none, some, ltb, leb, ◌==◌, if◌then◌else◌, ℤ, pos, negsuc, sub_ℕ}

unfoldable pub tolower : ℕ → ℕ
tolower c = if leb b'A' c && leb c b'Z' then c + 32 else c

unfoldable pub to_lower : List ℕ → List ℕ
unfolding tolower
to_lower [] = []
to_lower (c ∷ s) = tolower c ∷ to_lower s

-- The digits of a number in front of `acc`, on fuel.
unfoldable pub decimal_loop : ℕ → ℕ → List ℕ → List ℕ
decimal_loop zero n acc = acc
decimal_loop (suc fuel) n acc =
    let digit = b'0' + n % 10 in
    let rest = decimal_loop fuel (n / 10) (digit ∷ acc) in if ltb n 10 then digit ∷ acc else rest

-- `std::to_string`
unfoldable pub decimal : ℕ → List ℕ
unfolding decimal_loop
decimal n = decimal_loop (suc n) n []

unfoldable pub decimal_int : ℤ → List ℕ
unfolding decimal
decimal_int (pos n) = decimal n
decimal_int (negsuc n) = b'-' ∷ decimal (suc n)

unfoldable pub is_digit : ℕ → Bool
is_digit c = leb b'0' c && leb c b'9'

-- The digits at the front of a text, behind those that make up `acc`.
unfoldable pub digits_value : List ℕ → ℕ → ℕ
unfolding is_digit
digits_value [] acc = acc
digits_value (c ∷ s) acc = if is_digit c then digits_value s (acc * 10 + (c - b'0')) else acc

unfoldable pub magnitude : List ℕ → Option ℕ
unfolding digits_value
magnitude [] = none
magnitude (c ∷ s) = if is_digit c then some (digits_value (c ∷ s) 0) else none

-- The value of a variable of a signed type with the bound `limit` behind `std::from_chars`, which
-- leaves it as it is where there is no number or where the number does not fit.
unfoldable pub from_chars : ℕ → List ℕ → ℤ → ℤ
unfolding magnitude
from_chars limit [] init = init
from_chars limit (c ∷ s) init =
    if c == b'-'
    then elim (magnitude s) [ none ↦ init | some n ↦ if leb n limit then sub_ℕ 0 n else init ]
    else elim (magnitude (c ∷ s)) [ none ↦ init | some n ↦ if ltb n limit then pos n else init ]

-- A text cut at the first place where a byte occurs: what is before it and what is behind it.
unfoldable pub split_at_byte : ℕ → List ℕ → Option (List ℕ × List ℕ)
split_at_byte b [] = none
split_at_byte b (c ∷ s) = elim (split_at_byte b s) [
  | none ↦ if c == b then some ([], s) else none
  | some (before, behind) ↦ if c == b then some ([], s) else some (c ∷ before, behind)
]
