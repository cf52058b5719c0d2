-- ===== src/Http/Uri.antt =====
-- `class uri` and `request::query_param` of include/async_net/http/types.hpp.
pub mod Parts
use async_net.Base.{ℕ, ◌-◌, ◌%◌, ◌^◌, List, [], ◌∷◌, ◌++◌, Bool, true, false, ◌||◌, bytes, bytes_eq}
use async_net.Base.{ℤ, pos, Option, none, some, ◌==◌, if◌then◌else◌, is_empty, length, drop}
use async_net.Http.Text.{decimal, from_chars, split_at_byte}
use async_net.Http.Headers.{starts_with}
use async_net.Http.Message.{Request}

pub record Uri : Type 0 where
  pub raw : List ℕ
  pub scheme : List ℕ
  pub host : List ℕ
  pub port : ℕ
  pub path : List ℕ
  pub query : List ℕ
  pub fragment : List ℕ

abbrev pub new_uri : Uri
new_uri = record {
  raw = [];
  scheme = bytes "http";
  host = [];
  port = 80;
  path = b'/' ∷ [];
  query = [];
  fragment = [];
}

-- A text cut at the first place where a word that is not empty occurs.
unfoldable pub split_at_text : List ℕ → List ℕ → Option (List ℕ × List ℕ)
unfolding starts_with
split_at_text word [] = none
split_at_text word (c ∷ s) = elim (split_at_text word s) [
  | none ↦ if starts_with word (c ∷ s) then some ([], drop (length word) (c ∷ s)) else none
  | some (before, behind) ↦
      if starts_with word (c ∷ s)
      then some ([], drop (length word) (c ∷ s))
      else some (c ∷ before, behind)
]

-- A text cut at the last place where a byte occurs.
unfoldable pub split_at_last : ℕ → List ℕ → Option (List ℕ × List ℕ)
split_at_last b [] = none
split_at_last b (c ∷ s) = elim (split_at_last b s) [
  | none ↦ if c == b then some ([], s) else none
  | some (before, behind) ↦ some (c ∷ before, behind)
]

-- `static_cast<uint16_t>`
abbrev to_u16 : ℤ → ℕ
to_u16 (pos n) = n % 2 ^ 16
to_u16 (ℤ.negsuc n) = 2 ^ 16 - 1 - n % 2 ^ 16

abbrev split_scheme : List ℕ → Option (List ℕ × List ℕ) → List ℕ × List ℕ
split_scheme url none = (bytes "http", url)
split_scheme url (some (scheme, rest)) = (scheme, rest)

abbrev split_authority : List ℕ → Option (List ℕ × List ℕ) → List ℕ × List ℕ
split_authority rest none = (rest, b'/' ∷ [])
split_authority rest (some (authority, behind)) = (authority, b'/' ∷ behind)

unfoldable pub set_authority : Uri → List ℕ → Uri
unfolding split_at_last from_chars
set_authority u authority = elim (split_at_last b':' authority) [
  | some (host, port_str) ↦ record u {
    host = host;
    port = to_u16 (from_chars (2 ^ 31) port_str (pos 0));
  }
  | none ↦ record u {
    host = authority;
    port = if bytes_eq u.scheme (bytes "https") || bytes_eq u.scheme (bytes "h3") then 443 else 80;
  }
]

unfoldable pub set_path_query : Uri → List ℕ → Uri
unfolding split_at_byte
set_path_query u path_query =
    let set_path = λ (v : Uri). if is_empty v.path then record v { path = b'/' ∷ [] } else v in
    elim (split_at_byte b'?' path_query) [
      | some (path, query) ↦ set_path (record u { path = path; query = query })
      | none ↦ set_path (record u { path = path_query })
    ]

-- What is behind the authority.
unfoldable pub set_rest : Uri → List ℕ → Uri
unfolding split_at_byte set_path_query
set_rest u rest = elim (split_at_byte b'#' rest) [
  | some (path_query, fragment) ↦ set_path_query (record u { fragment = fragment }) path_query
  | none ↦ set_path_query u rest
]

unfoldable pub parse : Uri → List ℕ → Uri
parse u url =
    let (scheme, behind) = split_scheme url (split_at_text (bytes "://") url) in
    let (authority, rest) = split_authority behind (split_at_byte b'/' behind) in
    set_rest (set_authority (record u { raw = url; scheme = scheme }) authority) rest

unfoldable is_https : Uri → Bool
is_https u = bytes_eq u.scheme (bytes "https")

-- `authority`, the host and port for a connection.
unfoldable authority : Uri → List ℕ
authority u = u.host ++ (b':' ∷ decimal u.port)

abbrev until : List ℕ → Option (List ℕ × List ℕ) → List ℕ
until text none = text
until text (some (before, behind)) = before

unfoldable pub query_param : Request → List ℕ → List ℕ
unfolding split_at_text split_at_byte
query_param req key = elim (split_at_text (key ++ bytes "=") req.query) [
  | none ↦ []
  | some (before, behind) ↦ until behind (split_at_byte b'&' behind)
]
