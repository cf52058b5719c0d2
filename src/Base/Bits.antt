-- ===== src/Base/Bits.antt =====
-- Masks on one byte as arithmetic: tables of at most 256 entries, checked by evaluation.
use Prim.Native.Nat.{ℕ, zero, suc, ◌+◌, ◌-◌, ◌*◌, ◌/◌, ◌%◌, ◌^◌, ◌≤◌, ◌<◌, bit_and, bit_or, bit_xor}
use mathlib.Core.Path.{◌≡◌, refl}
use mathlib.Core.Bool.{Bool, true, ◌&&◌}
use native.Mathlib.Omega.{arith}
use native.Mathlib.Nat.{mod-add-mod, mod-eq_of_lt, div-add-mod, zero-add}
use async_net.Base.Tests.{◌==◌, ==_iff}

-- A test of the numbers below a bound, from the top down.
unfoldable pub all_below : ℕ → (ℕ → Bool) → Bool
all_below zero test = true
all_below (suc top) test = all_below top test && test top

pub all_below_sound :
    (bound : ℕ) (test : ℕ → Bool) (i : ℕ) → all_below bound test ≡ true → i < bound → test i ≡ true
unfolding all_below
all_below_sound (suc top) test i every lt = ground (arith, all_below_sound top test i)
all_below_sound zero test i every lt = absurd (omega arith)

-- Two functions that agree at every byte of a table agree at each byte.
agree : (f g : ℕ → ℕ) (n : ℕ) → all_below n (λ b. f b == g b) ≡ true → (x : ℕ) → x < n → f x ≡ g x
agree f g n table x h = (==_iff (f x) (g x)).0 (all_below_sound n (λ b. f b == g b) x table h)

pub and_0x7f : (b : ℕ) → b < 256 → bit_and b 0x7f ≡ b % 128
unfolding all_below
and_0x7f = agree _ _ 256 refl

pub and_0x80 : (b : ℕ) → b < 256 → bit_and b 0x80 ≡ b / 128 * 128
unfolding all_below
and_0x80 = agree _ _ 256 refl

pub and_0x0f : (b : ℕ) → b < 256 → bit_and b 0x0f ≡ b % 16
unfolding all_below
and_0x0f = agree _ _ 256 refl

pub or_0x80 : (b : ℕ) → b < 128 → bit_or b 0x80 ≡ b + 128
unfolding all_below
or_0x80 = agree _ _ 128 refl

-- A prefix of `n` bits under a mask that leaves these bits clear: all nine widths at once.
join_table : ℕ → Bool
join_table n =
    all_below 256 (λ x. bit_and (bit_or (x / 2 ^ n * 2 ^ n) (x % 2 ^ n)) (2 ^ n - 1) == x % 2 ^ n)

join_tables : all_below 9 join_table ≡ true
unfolding all_below join_table
join_tables = refl

join_in_table :
    (n x : ℕ)
    → n < 9
    → x < 256
    → bit_and (bit_or (x / 2 ^ n * 2 ^ n) (x % 2 ^ n)) (2 ^ n - 1) ≡ x % 2 ^ n
unfolding join_table
join_in_table n x hn hx =
    (==_iff _ _).0 (all_below_sound 256 _ x (all_below_sound 9 join_table n join_tables hn) hx)

-- The prefix of a byte is read back under its mask.
pub join :
    (n mask v : ℕ)
    → n < 9
    → mask + 2 ^ n ≤ 256
    → mask % 2 ^ n ≡ 0
    → v < 2 ^ n
    → bit_and (bit_or mask v) (2 ^ n - 1) ≡ v
join n mask v hn hm e hv =
    let low : (mask + v) % 2 ^ n ≡ v = rw (← mod-add-mod, e, zero-add) (mod-eq_of_lt hv) in
    let high : (mask + v) / 2 ^ n * 2 ^ n ≡ mask =
      omega (arith, div-add-mod (mask + v) (2 ^ n), low) in
    rw (high, low) at (join_in_table n (mask + v) hn (omega arith))

pub prefix_fits : (n : ℕ) → n < 9 → (2 ^ n - 1) % 256 ≡ 2 ^ n - 1
unfolding all_below
prefix_fits = agree _ _ 9 refl

pub top_set : (p : ℕ) → p < 128 → bit_and (bit_or 0x80 p) 0x80 ≡ 0x80
unfolding all_below
top_set = agree _ _ 128 refl

pub top_clear : (p : ℕ) → p < 128 → bit_and (bit_or 0x00 p) 0x80 ≡ 0
unfolding all_below
top_clear = agree _ _ 128 refl

-- The first byte of a size update: of its top three bits only the third is set.
pub third_set :
    (p : ℕ)
    → p < 32
    → (bit_and (bit_or 0x20 p) 0x80 ≡ 0)
      × (bit_and (bit_or 0x20 p) 0x40 ≡ 0)
      × (bit_and (bit_or 0x20 p) 0x20 ≡ 0x20)
unfolding all_below
third_set p h = (
  agree (λ p. bit_and (bit_or 0x20 p) 0x80) (λ _. 0) 32 refl p h,
  agree (λ p. bit_and (bit_or 0x20 p) 0x40) (λ _. 0) 32 refl p h,
  agree (λ p. bit_and (bit_or 0x20 p) 0x20) (λ _. 0x20) 32 refl p h,
)

-- A byte masked twice by the same byte. The table has a row for each mask.
xor_row : ℕ → Bool
xor_row k = all_below 256 (λ b. bit_xor (bit_xor b k) k == b)

xor_rows : all_below 256 xor_row ≡ true
unfolding all_below xor_row
xor_rows = refl

pub bit_xor_twice : (b k : ℕ) → b < 256 → k < 256 → bit_xor (bit_xor b k) k ≡ b
unfolding xor_row
bit_xor_twice b k hb hk = (==_iff _ _).0 (
    all_below_sound 256 (λ b. bit_xor (bit_xor b k) k == b) b
      (all_below_sound 256 xor_row k xor_rows hk) hb)

pub and_0x3f : (b : ℕ) → b < 256 → bit_and b 0x3F ≡ b % 64
unfolding all_below
and_0x3f = agree _ _ 256 refl

pub or_0x40 : (b : ℕ) → b < 64 → bit_or b 0x40 ≡ b + 64
unfolding all_below
or_0x40 = agree _ _ 64 refl

pub or_0xc0 : (b : ℕ) → b < 64 → bit_or b 0xC0 ≡ b + 192
unfolding all_below
or_0xc0 = agree _ _ 64 refl
