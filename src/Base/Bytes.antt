-- ===== src/Base/Bytes.antt =====
-- Big-endian fields. A byte is a number below 256, and a string is the list of its bytes.
use Prim.Native.Nat.{ℕ, ◌+◌, ◌*◌, ◌/◌, ◌%◌, ◌^◌, ◌<◌}
use mathlib.Core.Path.{◌≡◌}
use mathlib.Core.List.{List, [], ◌∷◌}
use native.Mathlib.Omega.{arith}
use async_net.Base.Lists.{get_or}

abbrev pub IsByte : ℕ → Type 0
IsByte b = b < 256

-- `(x >> k) & 0xFF`
abbrev pub byte_at : ℕ → ℕ → ℕ
byte_at x k = x / 2 ^ k % 256

-- `p[i]`, for an index that the caller has checked.
abbrev pub at : List ℕ → ℕ → ℕ
at p i = get_or p i 0

-- The four stores `p[0] = (x >> 24) & 0xFF` to `p[3] = x & 0xFF`.
abbrev pub store_u32 : ℕ → List ℕ
store_u32 x = byte_at x 24 ∷ byte_at x 16 ∷ byte_at x 8 ∷ byte_at x 0 ∷ []

-- `(uint32_t(p[i]) << 24) | … | uint32_t(p[i + 3])`. The shifted bytes have no bit in common, so
-- the disjunction is a sum.
abbrev pub load_u32 : ℕ → ℕ → ℕ → ℕ → ℕ
load_u32 a b c d = a * 2 ^ 24 + b * 2 ^ 16 + c * 2 ^ 8 + d

pub load-store_u32 :
    (x : ℕ) → x < 2 ^ 32 → load_u32 (byte_at x 24) (byte_at x 16) (byte_at x 8) (byte_at x 0) ≡ x
load-store_u32 x h = omega arith
