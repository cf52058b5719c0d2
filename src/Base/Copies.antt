-- ===== src/Base/Copies.antt =====
-- Two copies to adjoining places are one copy.
use Prim.Native.Nat.{ℕ, zero, suc, ◌+◌}
use mathlib.Core.Path.{◌≡◌, refl, ap}
use mathlib.Core.List.{List, [], ◌∷◌, ◌++◌}
use native.Mathlib.Omega.{arith}
use async_net.Base.Lists.{length, All, overwrite, copy_at, take, drop}

module _ {ℓ} {A : Type ℓ} where
  copy_at-nil : (n : ℕ) (ys : List A) → copy_at [] n ys ≡ []
  copy_at-nil zero ys = refl
  copy_at-nil (suc n) ys = refl

  overwrite-append :
      (b xs ys : List A) (n : ℕ)
      → n ≡ length xs
      → copy_at (overwrite b xs) n ys ≡ overwrite b (xs ++ ys)
  overwrite-append [] xs ys n h = copy_at-nil n ys
  overwrite-append (z ∷ b) [] ys zero h = refl
  overwrite-append (z ∷ b) [] ys (suc n) h = absurd (omega arith)
  overwrite-append (z ∷ b) (x ∷ xs) ys zero h = absurd (omega arith)
  overwrite-append (z ∷ b) (x ∷ xs) ys (suc n) h =
      ap (λ t. x ∷ t) (overwrite-append b xs ys n (omega arith))

  pub copy_at-append :
      (b : List A) (i : ℕ) (xs ys : List A) (n : ℕ)
      → n ≡ i + length xs
      → copy_at (copy_at b i xs) n ys ≡ copy_at b i (xs ++ ys)
  copy_at-append b zero xs ys n h = overwrite-append b xs ys n (omega arith)
  copy_at-append [] (suc i) xs ys n h = copy_at-nil n ys
  copy_at-append (z ∷ b) (suc i) xs ys zero h = absurd (omega arith)
  copy_at-append (z ∷ b) (suc i) xs ys (suc n) h =
      ap (λ t. z ∷ t) (copy_at-append b i xs ys n (omega arith))

  pub All-append {κ} : (P : A → Type κ) (xs ys : List A) → All P xs → All P ys → All P (xs ++ ys)
  All-append P [] ys h k = k
  All-append P (x ∷ xs) ys h k = (h.0, All-append P xs ys h.1 k)

  pub All-take {κ} : (P : A → Type κ) (n : ℕ) (xs : List A) → All P xs → All P (take n xs)
  All-take P zero xs h = tt
  All-take P (suc n) [] h = tt
  All-take P (suc n) (x ∷ xs) h = (h.0, All-take P n xs h.1)

  pub All-drop {κ} : (P : A → Type κ) (n : ℕ) (xs : List A) → All P xs → All P (drop n xs)
  All-drop P zero xs h = h
  All-drop P (suc n) [] h = tt
  All-drop P (suc n) (x ∷ xs) h = All-drop P n xs h.1

  All-overwrite {κ} : (P : A → Type κ) (b xs : List A) → All P b → All P xs → All P (overwrite b xs)
  All-overwrite P [] xs h k = tt
  All-overwrite P (z ∷ b) [] h k = h
  All-overwrite P (z ∷ b) (x ∷ xs) h k = (k.0, All-overwrite P b xs h.1 k.1)

  pub All-copy_at {κ} :
      (P : A → Type κ) (b : List A) (i : ℕ) (xs : List A)
      → All P b
      → All P xs
      → All P (copy_at b i xs)
  All-copy_at P b zero xs h k = All-overwrite P b xs h k
  All-copy_at P [] (suc i) xs h k = tt
  All-copy_at P (z ∷ b) (suc i) xs h k = (h.0, All-copy_at P b i xs h.1 k)

  -- `take` and `drop` across a seam.
  pub take-append_ge :
      (xs ys : List A) (n k : ℕ) → n ≡ length xs + k → take n (xs ++ ys) ≡ xs ++ take k ys
  take-append_ge [] ys n k h = ap (λ t. take t ys) (omega arith)
  take-append_ge (x ∷ xs) ys zero k h = absurd (omega arith)
  take-append_ge (x ∷ xs) ys (suc n) k h = ap (λ t. x ∷ t) (take-append_ge xs ys n k (omega arith))

  pub drop-append_ge :
      (xs ys : List A) (n k : ℕ) → n ≡ length xs + k → drop n (xs ++ ys) ≡ drop k ys
  drop-append_ge [] ys n k h = ap (λ t. drop t ys) (omega arith)
  drop-append_ge (x ∷ xs) ys zero k h = absurd (omega arith)
  drop-append_ge (x ∷ xs) ys (suc n) k h = drop-append_ge xs ys n k (omega arith)

  pub drop-drop : (c n k : ℕ) (xs : List A) → k ≡ c + n → drop k xs ≡ drop n (drop c xs)
  drop-drop zero n k xs h = ap (λ t. drop t xs) (omega arith)
  drop-drop (suc c) n zero xs h = absurd (omega arith)
  drop-drop (suc c) zero (suc k) [] h = refl
  drop-drop (suc c) (suc n) (suc k) [] h = refl
  drop-drop (suc c) n (suc k) (x ∷ xs) h = drop-drop c n k xs (omega arith)
