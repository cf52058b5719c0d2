-- ===== src/WebSocket/Base64.antt =====
-- `base64_detail::encode` of include/async_net/http/websocket.hpp.
pub mod RoundTrip
use async_net.Base.{ℕ, ◌+◌, ◌*◌, ◌/◌, ◌%◌, ◌^◌, List, [], ◌∷◌, at, bytes}

abbrev pub table : List ℕ
table = bytes "ABCDEFGHIJKLMNOPQRSTUVWXYZabcdefghijklmnopqrstuvwxyz0123456789+/"

-- `(a << 16) | (b << 8) | c`, of bytes.
abbrev pub triple : ℕ → ℕ → ℕ → ℕ
triple a b c = a * 2 ^ 16 + b * 2 ^ 8 + c

-- `table[(t >> shift) & 0x3F]`
unfoldable pub digit : ℕ → ℕ → ℕ
digit t shift = at table (t / 2 ^ shift % 64)

-- The loop takes three bytes in each round; in the last one, two or one may be left.
unfoldable pub base64_encode : List ℕ → List ℕ
unfolding digit
base64_encode [] = []
base64_encode (a ∷ []) = digit (triple a 0 0) 18 ∷ digit (triple a 0 0) 12 ∷ 61 ∷ 61 ∷ []
base64_encode (a ∷ b ∷ []) =
    digit (triple a b 0) 18 ∷ digit (triple a b 0) 12 ∷ digit (triple a b 0) 6 ∷ 61 ∷ []
base64_encode (a ∷ b ∷ c ∷ rest) =
    digit (triple a b c) 18
    ∷ digit (triple a b c) 12
    ∷ digit (triple a b c) 6
    ∷ digit (triple a b c) 0
    ∷ base64_encode rest
