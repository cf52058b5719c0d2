-- ===== src/WebSocket/Connection/Writes.antt =====
-- `write_raw` and writes that take a part.
use async_net.Base.{ℕ, zero, suc, ◌≡◌, refl, ap, ◌∙◌, List, [], ◌∷◌, ◌++◌, append_assoc}
use async_net.Base.{take, drop, ◌==◌, true, Bool-cases, inl, inr}
use async_net.WebSocket.Connection.{write_raw}

take-append-drop : (n : ℕ) (xs : List ℕ) → take n xs ++ drop n xs ≡ xs
take-append-drop zero xs = refl
take-append-drop (suc n) [] = refl
take-append-drop (suc n) (x ∷ xs) = ap (λ t. x ∷ t) (take-append-drop n xs)

-- What is left of the string when `write_raw` ends.
pub record Written (input writes : List ℕ) : Type 0 where
  pub left : List ℕ
  pub split : (write_raw input writes).1 ++ left ≡ input
  pub all : (write_raw input writes).0 ≡ true → left ≡ []

-- However many bytes the socket takes at a time, what has reached it is a beginning of the string,
-- and all of it if `write_raw` returns true.
pub write_raw-Written : (input writes : List ℕ) → Written input writes
unfolding write_raw
write_raw-Written [] writes = record { left = []; split = refl; all = λ e. refl }
write_raw-Written (b ∷ bs) [] = record { left = b ∷ bs; split = refl; all = λ e. cc }
write_raw-Written (b ∷ bs) (n ∷ writes) =
    let later = write_raw-Written (drop n (b ∷ bs)) writes in
    let out = (write_raw (drop n (b ∷ bs)) writes).1 in
    elim (Bool-cases (n == 0)) [
      | inl failed ↦ record { left = b ∷ bs; split = rw failed refl; all = rw failed (λ e. cc) }
      | inr some_taken ↦ record {
        left = later.left;
        split = rw some_taken (
            append_assoc (take n (b ∷ bs)) out later.left
            ∙ ap (λ t. take n (b ∷ bs) ++ t) later.split
            ∙ take-append-drop n (b ∷ bs));
        all = rw some_taken later.all;
      }
    ]
