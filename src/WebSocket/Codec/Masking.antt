-- ===== src/WebSocket/Codec/Masking.antt =====
-- The masking of RFC 6455, and the loop of `parse_frame` that undoes it.
use async_net.Base.{ℕ, zero, suc, ◌+◌, ◌%◌, ◌≡◌, refl, ap₂, arith}
use async_net.Base.{
  List, [], ◌∷◌, ◌++◌, length, at, All, IsByte, bit_xor, bit_xor_twice, drop, take,
}
use async_net.WebSocket.Frame.{unmask}

at-IsByte : (key : List ℕ) (i : ℕ) → All IsByte key → IsByte (at key i)
at-IsByte [] i h = omega arith
at-IsByte (b ∷ key) zero h = h.0
at-IsByte (b ∷ key) (suc i) h = at-IsByte key i h.1

pub length-unmask : (key : List ℕ) (i : ℕ) (p : List ℕ) → length (unmask key i p) ≡ length p
unfolding unmask
length-unmask key i [] = refl
length-unmask key i (b ∷ p) = omega (arith, length-unmask key (i + 1) p)

pub unmask_twice :
    (key : List ℕ) (i : ℕ) (p : List ℕ)
    → All IsByte key
    → All IsByte p
    → unmask key i (unmask key i p) ≡ p
unfolding unmask
unmask_twice key i [] hk h = refl
unmask_twice key i (b ∷ p) hk (hb, h) =
    ap₂ (λ b p. b ∷ p) (bit_xor_twice b (at key (i % 4)) hb (at-IsByte key (i % 4) hk))
      (unmask_twice key (i + 1) p hk h)

-- Each byte of the payload with one of the key, whose bytes are taken in turn.
unfoldable pub mask_payload : List ℕ → List ℕ → List ℕ
mask_payload key [] = []
mask_payload [] (b ∷ bs) = b ∷ bs
mask_payload (k ∷ ks) (b ∷ bs) = bit_xor b k ∷ mask_payload (ks ++ (k ∷ [])) bs

mask_payload-nil : (key : List ℕ) → mask_payload key [] ≡ []
unfolding mask_payload
mask_payload-nil [] = refl
mask_payload-nil (k ∷ ks) = refl

-- The loop at the index `i` is where the key has been turned `i % 4` times.
mask_payload-turned :
    (k₀ k₁ k₂ k₃ i r : ℕ) (p : List ℕ)
    → r ≡ i % 4
    → (let key = k₀ ∷ k₁ ∷ k₂ ∷ k₃ ∷ [] in
        mask_payload (drop r key ++ take r key) p ≡ unmask key i p)
unfolding mask_payload unmask
mask_payload-turned k₀ k₁ k₂ k₃ i r [] e =
    mask_payload-nil (drop r (k₀ ∷ k₁ ∷ k₂ ∷ k₃ ∷ []) ++ take r (k₀ ∷ k₁ ∷ k₂ ∷ k₃ ∷ []))
mask_payload-turned k₀ k₁ k₂ k₃ i zero (b ∷ p) e =
    ap₂ (λ j bs. bit_xor b (at (k₀ ∷ k₁ ∷ k₂ ∷ k₃ ∷ []) j) ∷ bs) e
      (mask_payload-turned k₀ k₁ k₂ k₃ (i + 1) 1 p (omega arith))
mask_payload-turned k₀ k₁ k₂ k₃ i (suc zero) (b ∷ p) e =
    ap₂ (λ j bs. bit_xor b (at (k₀ ∷ k₁ ∷ k₂ ∷ k₃ ∷ []) j) ∷ bs) e
      (mask_payload-turned k₀ k₁ k₂ k₃ (i + 1) 2 p (omega arith))
mask_payload-turned k₀ k₁ k₂ k₃ i (suc (suc zero)) (b ∷ p) e =
    ap₂ (λ j bs. bit_xor b (at (k₀ ∷ k₁ ∷ k₂ ∷ k₃ ∷ []) j) ∷ bs) e
      (mask_payload-turned k₀ k₁ k₂ k₃ (i + 1) 3 p (omega arith))
mask_payload-turned k₀ k₁ k₂ k₃ i (suc (suc (suc zero))) (b ∷ p) e =
    ap₂ (λ j bs. bit_xor b (at (k₀ ∷ k₁ ∷ k₂ ∷ k₃ ∷ []) j) ∷ bs) e
      (mask_payload-turned k₀ k₁ k₂ k₃ (i + 1) 0 p (omega arith))
mask_payload-turned k₀ k₁ k₂ k₃ i (suc (suc (suc (suc r)))) (b ∷ p) e = absurd (omega arith)

pub mask_payload-unmask : (key p : List ℕ) → length key ≡ 4 → mask_payload key p ≡ unmask key 0 p
mask_payload-unmask [] p h = absurd (omega arith)
mask_payload-unmask (a ∷ []) p h = absurd (omega arith)
mask_payload-unmask (a ∷ b ∷ []) p h = absurd (omega arith)
mask_payload-unmask (a ∷ b ∷ c ∷ []) p h = absurd (omega arith)
mask_payload-unmask (a ∷ b ∷ c ∷ d ∷ []) p h = mask_payload-turned a b c d 0 0 p (omega arith)
mask_payload-unmask (a ∷ b ∷ c ∷ d ∷ f ∷ key) p h = absurd (omega arith)
