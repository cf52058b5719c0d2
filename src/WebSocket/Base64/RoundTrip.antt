-- ===== src/WebSocket/Base64/RoundTrip.antt =====
-- A Base64 decoder reads back what `base64_detail::encode` wrote.
use async_net.Base.{ℕ, ◌+◌, ◌-◌, ◌*◌, ◌/◌, ◌%◌, ◌^◌, ◌≡◌, refl, ap, ap₂, arith, List, [], ◌∷◌}
use async_net.Base.{at, leb, All, IsByte, true, false, not, ◌&&◌, ◌==◌, if◌then◌else◌}
use async_net.Base.{all_below, all_below_sound}
use async_net.WebSocket.Base64.{table, triple, digit, base64_encode}

-- RFC 4648: the value of a character of the alphabet, by the ranges of its table.
sextet : ℕ → ℕ
sextet ch =
    if leb b'A' ch && leb ch b'Z'
    then ch - b'A'
    else if leb b'a' ch && leb ch b'z'
    then 26 + (ch - b'a')
    else if leb b'0' ch && leb ch b'9'
    then 52 + (ch - b'0')
    else if ch == b'+'
    then 62
    else if ch == b'/'
    then 63
    else 64

-- Four characters are three bytes, or fewer with a padding of `=`.
pub base64_decode : List ℕ → List ℕ
base64_decode [] = []
base64_decode (w ∷ []) = []
base64_decode (w ∷ x ∷ []) = []
base64_decode (w ∷ x ∷ y ∷ []) = []
base64_decode (w ∷ x ∷ y ∷ z ∷ rest) =
    let first = sextet w * 4 + sextet x / 16 in
    let second = sextet x % 16 * 16 + sextet y / 4 in
    let third = sextet y % 4 * 64 + sextet z in
    let more = base64_decode rest in
    if z == 61
    then (if y == 61 then first ∷ [] else first ∷ second ∷ [])
    else first ∷ second ∷ third ∷ more

alphabet : all_below 64 (λ v. sextet (at table v) == v && not (at table v == 61)) ≡ true
unfolding all_below sextet
alphabet = refl

digit_read :
    (t shift : ℕ) → (sextet (digit t shift) ≡ t / 2 ^ shift % 64) × ((digit t shift == 61) ≡ false)
unfolding digit
digit_read t shift =
    let v = t / 2 ^ shift % 64 in
    let known =
      all_below_sound 64 (λ v. sextet (at table v) == v && not (at table v == 61)) v alphabet
        (omega arith) in
    ground (arith, known)

-- A decoder by RFC 4648, with its alphabet and padding, gives back the bytes that were encoded.
pub base64_decode-base64_encode :
    (input : List ℕ) → All IsByte input → base64_decode (base64_encode input) ≡ input
unfolding base64_encode base64_decode
base64_decode-base64_encode [] h = refl
base64_decode-base64_encode (a ∷ []) h =
    let t = triple a 0 0 in
    rw ((digit_read t 18).0, (digit_read t 12).0) (ap (λ x. x ∷ []) (omega (arith, h.0)))
base64_decode-base64_encode (a ∷ b ∷ []) h =
    let t = triple a b 0 in
    rw ((digit_read t 18).0, (digit_read t 12).0, (digit_read t 6).0, (digit_read t 6).1)
      (ap₂ (λ x y. x ∷ y ∷ []) (omega (arith, h.0, h.1.0)) (omega (arith, h.0, h.1.0)))
base64_decode-base64_encode (a ∷ b ∷ c ∷ rest) h =
    let t = triple a b c in
    let first : t / 2 ^ 18 % 64 * 4 + t / 2 ^ 12 % 64 / 16 ≡ a =
      omega (arith, h.0, h.1.0, h.1.1.0) in
    let second : t / 2 ^ 12 % 64 % 16 * 16 + t / 2 ^ 6 % 64 / 4 ≡ b =
      omega (arith, h.0, h.1.0, h.1.1.0) in
    let third : t / 2 ^ 6 % 64 % 4 * 64 + t / 2 ^ 0 % 64 ≡ c = omega (arith, h.0, h.1.0, h.1.1.0) in
    rw
      (
        (digit_read t 0).1,
        (digit_read t 18).0,
        (digit_read t 12).0,
        (digit_read t 6).0,
        (digit_read t 0).0,
        base64_decode-base64_encode rest h.1.1.1,
      )
      (ap₂ (λ x (ys : List ℕ). x ∷ ys) first (ap₂ (λ y z. y ∷ z ∷ rest) second third))
