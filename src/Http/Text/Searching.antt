-- ===== src/Http/Text/Searching.antt =====
-- Bytes that a text lacks, and what the searches of `std::string` find behind it.
use async_net.Base.{
  ℕ, zero, suc, ◌+◌, ◌/◌, ◌%◌, List, [], ◌∷◌, ◌++◌, Bool, true, false, ◌&&◌, not, arith,
}
use async_net.Base.{some, ◌≡◌, refl, ◌==◌}
use async_net.Http.Text.{split_at_byte, decimal, decimal_loop, is_digit}

unfoldable pub lacks : ℕ → List ℕ → Bool
lacks b [] = true
lacks b (c ∷ s) = not (c == b) && lacks b s

pub lacks-append :
    (b : ℕ) (s t : List ℕ) → lacks b s ≡ true → lacks b t ≡ true → lacks b (s ++ t) ≡ true
unfolding lacks
lacks-append b [] t hs ht = ht
lacks-append b (c ∷ s) t hs ht = ground (arith, lacks-append b s t)

pub split_at_byte-append :
    (b : ℕ) (s rest : List ℕ)
    → lacks b s ≡ true
    → split_at_byte b (s ++ (b ∷ rest)) ≡ some (s, rest)
unfolding split_at_byte lacks
split_at_byte-append b [] rest h = ground arith
split_at_byte-append b (c ∷ s) rest h = ground (arith, split_at_byte-append b s rest)

lacks-decimal_loop :
    (b fuel n : ℕ) (acc : List ℕ)
    → is_digit b ≡ false
    → lacks b acc ≡ true
    → lacks b (decimal_loop fuel n acc) ≡ true
unfolding decimal_loop lacks is_digit
lacks-decimal_loop b zero n acc h ha = ha
lacks-decimal_loop b (suc fuel) n acc h ha =
    ground (arith, lacks-decimal_loop b fuel (n / 10) ((b'0' + n % 10) ∷ acc) h)

pub lacks-decimal : (b n : ℕ) → is_digit b ≡ false → lacks b (decimal n) ≡ true
unfolding decimal lacks
lacks-decimal b n h = lacks-decimal_loop b (suc n) n [] h refl
