-- ===== src/Http2/Hpack/Huffman/BitString.antt =====
-- The bits of a number, most significant first, and the bit stream of a byte string.
use async_net.Base.{ℕ, zero, suc, ◌+◌, ◌*◌, ◌/◌, ◌%◌, ◌^◌, ◌<◌, ◌≡◌, refl, ap, ap₂, sym, ◌∙◌}
use async_net.Base.{
  arith, List, [], ◌∷◌, ◌++◌, append_assoc, append-nil, length, length-append, byte_at,
}
use native.Mathlib.Nat.{div-div-eq-div-mul, pow-suc, mul-add-div_right}
use native.Mathlib.Nat.{div-eq_of_lt, div-add-mod, one-le-pow}

-- The `n` lowest bits of `x`.
unfoldable pub bits : ℕ → ℕ → List ℕ
bits zero x = []
bits (suc n) x = bits n (x / 2) ++ (x % 2 ∷ [])

unfoldable pub stream : List ℕ → List ℕ
unfolding bits
stream [] = []
stream (b ∷ bs) = bits 8 b ++ stream bs

pub stream-append : (xs ys : List ℕ) → stream (xs ++ ys) ≡ stream xs ++ stream ys
unfolding stream
stream-append [] ys = refl
stream-append (x ∷ xs) ys =
    ap (λ t. bits 8 x ++ t) (stream-append xs ys)
    ∙ sym (append_assoc (bits 8 x) (stream xs) (stream ys))

pub half-half : (x n : ℕ) → x / 2 / 2 ^ n ≡ x / 2 ^ suc n
half-half x n = div-div-eq-div-mul x 2 (2 ^ n) ∙ ap (λ t. x / t) (omega (arith, pow-suc 2 n))

-- The bits above the lowest `c`, and these.
pub bits-add : (n c k x : ℕ) → k ≡ n + c → bits k x ≡ bits n (x / 2 ^ c) ++ bits c x
unfolding bits
bits-add n zero k x h =
    let e : k ≡ n = omega arith in let d : x / 2 ^ 0 ≡ x = omega arith in rw (e, d, append-nil)
bits-add n (suc c) zero x h = absurd (omega arith)
bits-add n (suc c) (suc k) x h =
    rw (bits-add n c k (x / 2) (omega arith), half-half x c, append_assoc)

-- Higher bits do not count.
pub bits-add_multiple : (n j k x q : ℕ) → k ≡ n + j → bits n (x + 2 ^ k * q) ≡ bits n x
unfolding bits
bits-add_multiple zero j k x q h = refl
bits-add_multiple (suc n) j zero x q h = absurd (omega arith)
bits-add_multiple (suc n) j (suc k) x q h =
    let p = 2 ^ k * q in
    let e : 2 ^ suc k * q ≡ 2 * p = omega (arith, ap (λ (t : ℕ). t * q) (pow-suc 2 k)) in
    let half : (x + 2 ^ suc k * q) / 2 ≡ x / 2 + p = omega (arith, e) in
    let low : (x + 2 ^ suc k * q) % 2 ≡ x % 2 = omega (arith, e) in
    rw (half, low, bits-add_multiple n j k (x / 2) q (omega arith))

pub bits-mod : (n j k x : ℕ) → k ≡ n + j → bits n (x % 2 ^ k) ≡ bits n x
bits-mod n j k x h =
    sym (bits-add_multiple n j k (x % 2 ^ k) (x / 2 ^ k) h)
    ∙ ap (bits n) (omega (arith, div-add-mod x (2 ^ k)))

-- `x << c` with `y` in the bits that this clears, in a word of `n + c + j` bits.
pub bits-shift :
    (n c j w x y : ℕ)
    → w ≡ n + c + j
    → y < 2 ^ c
    → bits (n + c) (x * 2 ^ c % 2 ^ w + y) ≡ bits n x ++ bits c y
bits-shift n c j w x y h hy =
    let wrapped : bits (n + c) (x * 2 ^ c % 2 ^ w + y) ≡ bits (n + c) (x * 2 ^ c + y) =
      sym (bits-add_multiple (n + c) j w (x * 2 ^ c % 2 ^ w + y) (x * 2 ^ c / 2 ^ w) h)
      ∙ ap (bits (n + c)) (omega (arith, div-add-mod (x * 2 ^ c) (2 ^ w))) in
    let high : (x * 2 ^ c + y) / 2 ^ c ≡ x =
      mul-add-div_right (one-le-pow c 2 (omega arith)) x y
      ∙ ap (λ (t : ℕ). x + t) (div-eq_of_lt hy)
      ∙ omega arith in
    let low : bits c (x * 2 ^ c + y) ≡ bits c y =
      ap (bits c) (omega arith) ∙ bits-add_multiple c 0 c y x (omega arith) in
    wrapped ∙ bits-add n c (n + c) (x * 2 ^ c + y) refl ∙ ap₂ ◌++◌ (ap (bits n) high) low

-- The next byte that `emit` takes off the top of `8 + c` bits.
pub bits_byte : (c x : ℕ) → bits (8 + c) x ≡ bits 8 (byte_at x c) ++ bits c x
bits_byte c x =
    bits-add 8 c (8 + c) x refl ∙ ap (λ t. t ++ bits c x) (sym (bits-mod 8 0 8 (x / 2 ^ c) refl))

pub length-bits : (n x : ℕ) → length (bits n x) ≡ n
unfolding bits
length-bits zero x = refl
length-bits (suc n) x =
    omega (arith, length-bits n (x / 2), length-append (bits n (x / 2)) (x % 2 ∷ []))
