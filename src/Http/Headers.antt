-- ===== src/Http/Headers.antt =====
-- `class headers` of include/async_net/http/types.hpp: the fields of a message in their order,
-- with names that are compared without regard to case.
pub mod Laws
use async_net.Base.{
  ◌^◌, List, [], ◌∷◌, ◌++◌, Bool, true, false, Option, none, some, bytes, bytes_eq,
}
use async_net.Base.{if◌then◌else◌, ℕ, ℤ, pos, negsuc, ◌||◌}
use async_net.Http.Text.{to_lower, from_chars}
use async_net.Http2.Hpack.Entry.{Entry, entry}

abbrev pub Headers : Type 0
Headers = List Entry

-- `to_lower(e.first) == lower`
unfoldable pub has_name : List ℕ → Entry → Bool
has_name lower e = bytes_eq (to_lower e.name) lower

-- `std::remove_if` with this test, and `erase`.
unfoldable pub remove_named : List ℕ → Headers → Headers
unfolding has_name
remove_named lower [] = []
remove_named lower (e ∷ es) =
    if has_name lower e then remove_named lower es else e ∷ remove_named lower es

unfoldable pub append : Headers → List ℕ → List ℕ → Headers
append hs name value = hs ++ (entry name value ∷ [])

unfoldable pub set : Headers → List ℕ → List ℕ → Headers
unfolding append remove_named
set hs name value = append (remove_named (to_lower name) hs) name value

unfoldable pub remove : Headers → List ℕ → Headers
unfolding remove_named
remove hs name = remove_named (to_lower name) hs

unfoldable pub first_named : List ℕ → Headers → Option (List ℕ)
unfolding has_name
first_named lower [] = none
first_named lower (e ∷ es) = if has_name lower e then some e.value else first_named lower es

unfoldable pub get : Headers → List ℕ → Option (List ℕ)
unfolding first_named
get hs name = first_named (to_lower name) hs

unfoldable pub all_named : List ℕ → Headers → List (List ℕ)
unfolding has_name
all_named lower [] = []
all_named lower (e ∷ es) =
    if has_name lower e then e.value ∷ all_named lower es else all_named lower es

unfoldable pub get_all : Headers → List ℕ → List (List ℕ)
unfolding all_named
get_all hs name = all_named (to_lower name) hs

abbrev pub has_value {ℓ} : {A : Type ℓ} → Option A → Bool
has_value none = false
has_value (some a) = true

unfoldable pub contains : Headers → List ℕ → Bool
unfolding get
contains hs name = has_value (get hs name)

abbrev nonnegative : ℤ → Option ℕ
nonnegative (pos n) = some n
nonnegative (negsuc n) = none

unfoldable pub content_length : Headers → Option ℕ
unfolding get from_chars
content_length hs = elim (get hs (bytes "Content-Length")) [
  | none ↦ none
  | some value ↦ nonnegative (from_chars (2 ^ 63) value (negsuc 0))
]

unfoldable pub starts_with : List ℕ → List ℕ → Bool
starts_with [] s = true
starts_with (c ∷ cs) [] = false
starts_with (c ∷ cs) (d ∷ s) = elim (bytes_eq (c ∷ []) (d ∷ [])) [
  | true ↦ starts_with cs s
  | false ↦ false
]

-- `find(word) != npos`
unfoldable pub has_word : List ℕ → List ℕ → Bool
unfolding starts_with
has_word word [] = starts_with word []
has_word word (c ∷ s) = starts_with word (c ∷ s) || has_word word s

unfoldable pub is_chunked : Headers → Bool
unfolding get to_lower has_word
is_chunked hs = elim (get hs (bytes "Transfer-Encoding")) [
  | none ↦ false
  | some value ↦ has_word (bytes "chunked") (to_lower value)
]

unfoldable pub is_keep_alive : Headers → Bool
unfolding get to_lower bytes_eq
is_keep_alive hs = elim (get hs (bytes "Connection")) [
  | none ↦ true
  | some value ↦ bytes_eq (to_lower value) (bytes "keep-alive")
]

unfoldable pub serialize : Headers → List ℕ
serialize [] = []
serialize (e ∷ es) = e.name ++ (bytes ": " ++ (e.value ++ (b'\r' ∷ b'\n' ∷ serialize es)))
