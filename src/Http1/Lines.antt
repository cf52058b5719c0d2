-- ===== src/Http1/Lines.antt =====
-- `find_header_end` and `parse_header_lines` of src/http/http1_codec.cpp. A `find` with the `substr`
-- calls behind it is a cut of the text in two.
use async_net.Base.{
  ℕ, zero, suc, List, [], ◌∷◌, ◌++◌, Bool, true, false, ◌&&◌, ◌||◌, Option, none, some,
}
use async_net.Base.{◌==◌, if◌then◌else◌, drop, length}
use async_net.Http.Text.{split_at_byte}
use async_net.Http.Headers.{Headers, append}

abbrev pub crlf : List ℕ
crlf = b'\r' ∷ b'\n' ∷ []

-- A byte in front of what is before the cut.
abbrev pub push_before : ℕ → Option (List ℕ × List ℕ) → Option (List ℕ × List ℕ)
push_before c none = none
push_before c (some (before, behind)) = some (c ∷ before, behind)

-- A text cut at its first "\r\n".
unfoldable pub split_crlf : List ℕ → Option (List ℕ × List ℕ)
split_crlf [] = none
split_crlf (c ∷ []) = none
split_crlf (c ∷ d ∷ s) =
    let later = push_before c (split_crlf (d ∷ s)) in
    if c == b'\r' && d == b'\n' then some ([], s) else later

abbrev pub is_header_end : ℕ → ℕ → ℕ → ℕ → Bool
is_header_end a b c d = a == b'\r' && b == b'\n' && c == b'\r' && d == b'\n'

-- A text cut at its first "\r\n\r\n".
unfoldable pub split_header_end : List ℕ → Option (List ℕ × List ℕ)
split_header_end (a ∷ b ∷ c ∷ d ∷ s) =
    let later = push_before a (split_header_end (b ∷ c ∷ d ∷ s)) in
    if is_header_end a b c d then some ([], s) else later
split_header_end other = none

unfoldable pub is_blank : ℕ → Bool
is_blank c = c == b' ' || c == b'\t'

unfoldable pub trim_start : List ℕ → List ℕ
unfolding is_blank
trim_start [] = []
trim_start (c ∷ s) = let rest = trim_start s in if is_blank c then rest else c ∷ s

abbrev push_unless_blank : ℕ → List ℕ → List ℕ
push_unless_blank c [] = if is_blank c then [] else c ∷ []
push_unless_blank c (d ∷ s) = c ∷ d ∷ s

unfoldable pub trim_end : List ℕ → List ℕ
unfolding is_blank
trim_end [] = []
trim_end (c ∷ s) = push_unless_blank c (trim_end s)

-- The loop for lines that begin with a blank, on fuel: such a line goes on the one before it.
unfoldable pub fold_lines : ℕ → List ℕ → List ℕ → List ℕ × List ℕ
unfolding is_blank split_crlf
fold_lines zero line rest = (line, rest)
fold_lines (suc fuel) line [] = (line, [])
fold_lines (suc fuel) line (c ∷ s) = elim (is_blank c) [
  | false ↦ (line, c ∷ s)
  | true ↦ elim (split_crlf (c ∷ s)) [
    | none ↦ (line, c ∷ s)
    | some (more, rest) ↦ fold_lines fuel (line ++ (b' ' ∷ drop 1 more)) rest
  ]
]

-- A line cut at its first ':', if it has one.
unfoldable pub add_line : List ℕ → Headers → Headers
unfolding split_at_byte trim_start trim_end append
add_line line hs = elim (split_at_byte b':' line) [
  | none ↦ hs
  | some (name, value) ↦ append hs (trim_end name) (trim_end (trim_start value))
]

-- The loop of `parse_header_lines`, on fuel; `block` is the block from `pos` on.
unfoldable pub header_lines : ℕ → List ℕ → Headers → Headers
unfolding split_crlf fold_lines add_line
header_lines zero block hs = hs
header_lines (suc fuel) block hs = elim (split_crlf block) [
  | none ↦ hs
  | some ([], rest) ↦ hs
  | some (c ∷ line, rest) ↦
      let (whole, behind) = fold_lines fuel (c ∷ line) rest in
      header_lines fuel behind (add_line whole hs)
]

unfoldable pub parse_header_lines : List ℕ → Headers → Headers
unfolding header_lines
parse_header_lines block hs = header_lines (length block) block hs
