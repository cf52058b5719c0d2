-- ===== src/Http2/Session/Delivered.antt =====
-- The fields of a message as RFC 9113 has them sent: the names in lower case, and none that belong to
-- the connection.
use async_net.Base.{
  ℕ, List, [], ◌∷◌, map, Bool, true, false, ◌||◌, ◌==◌, ◌+◌, ◌≡◌, refl, ap₂, arith,
}
use async_net.Base.{
  bytes, bytes_eq, if◌then◌else◌, leb, bit_or, all_below, all_below_sound, Bool-cases, inl, inr,
}
use async_net.Http.Text.{to_lower, tolower}
use async_net.Http.Headers.{Headers}
use async_net.Http2.Hpack.Entry.{Entry, entry}
use async_net.Http2.Session.Submit.{lowered, request_left_out, response_left_out}

-- A letter in lower case has the bit 0x20.
unfoldable pub lower_byte : ℕ → ℕ
lower_byte c = if leb b'A' c then (if leb c b'Z' then bit_or c 0x20 else c) else c

unfoldable pub lower_name : Entry → Entry
unfolding lower_byte
lower_name e = entry (map lower_byte e.name) e.value

unfoldable pub is_one_of : List (List ℕ) → List ℕ → Bool
is_one_of [] name = false
is_one_of (n ∷ names) name = bytes_eq name n || is_one_of names name

unfoldable pub without : List (List ℕ) → Headers → Headers
unfolding is_one_of
without names [] = []
without names (e ∷ es) = if is_one_of names e.name then without names es else e ∷ without names es

upper_case : all_below 91 (λ c. if leb 65 c then bit_or c 0x20 == c + 32 else true) ≡ true
unfolding all_below
upper_case = refl

tolower-lower_byte : (c : ℕ) → tolower c ≡ lower_byte c
unfolding tolower lower_byte
tolower-lower_byte c = elim (Bool-cases (leb c 90)) [
  | inl low ↦
      let known =
        all_below_sound 91 (λ c. if leb 65 c then bit_or c 0x20 == c + 32 else true) c upper_case
          (ground arith) in
      ground (arith, known)
  | inr high ↦ ground arith
]

to_lower-lower_byte : (s : List ℕ) → to_lower s ≡ map lower_byte s
unfolding to_lower
to_lower-lower_byte [] = refl
to_lower-lower_byte (c ∷ s) =
    ap₂ (λ x (t : List ℕ). x ∷ t) (tolower-lower_byte c) (to_lower-lower_byte s)

-- The fields of a request that its pseudo-header fields stand for, or that HTTP/2 does not send.
abbrev pub request_names : List (List ℕ)
request_names = bytes "host" ∷ bytes "connection" ∷ []

-- The fields of a response that are sent in front of the others, or that HTTP/2 does not send.
abbrev pub response_names : List (List ℕ)
response_names =
    bytes "content-type"
    ∷ bytes "content-length"
    ∷ bytes "connection"
    ∷ bytes "transfer-encoding"
    ∷ []

lowered-without :
    (left_out : List ℕ → Bool) (names : List (List ℕ)) (hs : Headers)
    → ((name : List ℕ) → left_out name ≡ is_one_of names name)
    → lowered left_out hs ≡ without names (map lower_name hs)
unfolding lowered without lower_name
lowered-without left_out names [] h = refl
lowered-without left_out names (e ∷ es) h =
    rw (to_lower-lower_byte e.name, h (map lower_byte e.name), lowered-without left_out names es h)
      refl

request_left_out-is_one_of : (name : List ℕ) → request_left_out name ≡ is_one_of request_names name
unfolding request_left_out is_one_of
request_left_out-is_one_of name = ground arith

response_left_out-is_one_of :
    (name : List ℕ) → response_left_out name ≡ is_one_of response_names name
unfolding response_left_out is_one_of
response_left_out-is_one_of name = ground arith

pub lowered-request_names :
    (hs : Headers) → lowered request_left_out hs ≡ without request_names (map lower_name hs)
lowered-request_names hs =
    lowered-without request_left_out request_names hs request_left_out-is_one_of

pub lowered-response_names :
    (hs : Headers) → lowered response_left_out hs ≡ without response_names (map lower_name hs)
lowered-response_names hs =
    lowered-without response_left_out response_names hs response_left_out-is_one_of
