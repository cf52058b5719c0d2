-- ===== src/Http1/Fields.antt =====
-- What `parse_header_lines` of src/http/http1_codec.cpp promises for the text of
-- `headers::serialize`.
use async_net.Http.Text.Searching.{lacks, lacks-append, split_at_byte-append}
use async_net.Base.{
  ℕ, zero, suc, ◌≤◌, List, [], ◌∷◌, ◌++◌, append_assoc, Bool, true, false, ◌&&◌, not,
}
use async_net.Base.{some, ◌≡◌, refl, sym, ap, ◌∙◌, length, length-append, is_empty, arith}
use async_net.Base.{append-nil}
use async_net.Http.Headers.{Headers, append, serialize}
use async_net.Http2.Hpack.Entry.{Entry}
use async_net.Http1.Lines.{split_crlf, is_blank, trim_start, trim_end, fold_lines, add_line}
use async_net.Http1.Lines.{header_lines, parse_header_lines}

unfoldable pub starts_plain : List ℕ → Bool
unfolding is_blank
starts_plain [] = true
starts_plain (c ∷ s) = not (is_blank c)

unfoldable pub ends_plain : List ℕ → Bool
unfolding is_blank
ends_plain [] = true
ends_plain (c ∷ []) = not (is_blank c)
ends_plain (c ∷ d ∷ s) = ends_plain (d ∷ s)

-- A field that one line can carry.
unfoldable pub is_line_field : Entry → Bool
unfolding lacks starts_plain ends_plain
is_line_field e =
    lacks b'\r' e.name
    && lacks b':' e.name
    && starts_plain e.name
    && ends_plain e.name
    && lacks b'\r' e.value
    && starts_plain e.value
    && ends_plain e.value

unfoldable pub are_line_fields : Headers → Bool
unfolding is_line_field
are_line_fields [] = true
are_line_fields (e ∷ es) = is_line_field e && are_line_fields es

pub split_crlf-line :
    (s rest : List ℕ)
    → lacks b'\r' s ≡ true
    → split_crlf (s ++ (b'\r' ∷ b'\n' ∷ rest)) ≡ some (s, rest)
unfolding split_crlf lacks
split_crlf-line [] rest h = refl
split_crlf-line (c ∷ []) rest h = ground arith
split_crlf-line (c ∷ d ∷ s) rest h = ground (arith, split_crlf-line (d ∷ s) rest)

trim_end-plain : (s : List ℕ) → ends_plain s ≡ true → trim_end s ≡ s
unfolding trim_end ends_plain
trim_end-plain [] h = refl
trim_end-plain (c ∷ []) h = ground arith
trim_end-plain (c ∷ d ∷ s) h = rw (trim_end-plain (d ∷ s) h) refl

trim_start-plain : (s : List ℕ) → starts_plain s ≡ true → trim_start s ≡ s
unfolding trim_start starts_plain
trim_start-plain [] h = refl
trim_start-plain (c ∷ s) h = ground arith

fold_lines-plain :
    (fuel : ℕ) (line rest : List ℕ)
    → starts_plain rest ≡ true
    → fold_lines fuel line rest ≡ (line, rest)
unfolding fold_lines starts_plain
fold_lines-plain zero line rest h = refl
fold_lines-plain (suc fuel) line [] h = refl
fold_lines-plain (suc fuel) line (c ∷ s) h = ground arith

-- A line that is not empty, and that no folded line follows.
header_lines-step :
    (fuel : ℕ) (block line rest : List ℕ) (hs : Headers)
    → split_crlf block ≡ some (line, rest)
    → is_empty line ≡ false
    → starts_plain rest ≡ true
    → header_lines (suc fuel) block hs ≡ header_lines fuel rest (add_line line hs)
unfolding header_lines
header_lines-step fuel block [] rest hs e ne p = cc
header_lines-step fuel block (c ∷ line) rest hs e ne p =
    rw (e, header_lines) (rw (fold_lines-plain fuel (c ∷ line) rest p) refl)

add_line-parts :
    (name value : List ℕ) (hs : Headers)
    → lacks b':' name ≡ true
    → ends_plain name ≡ true
    → starts_plain value ≡ true
    → ends_plain value ≡ true
    → add_line (name ++ (b':' ∷ b' ' ∷ value)) hs ≡ append hs name value
unfolding add_line trim_start is_blank
add_line-parts name value hs h1 h2 h3 h4 =
    rw (split_at_byte-append b':' name (b' ' ∷ value) h1, add_line)
      (rw (trim_end-plain name h2)
        (rw (trim_start-plain value h3) (rw (trim_end-plain value h4) refl)))

header_lines-nil : (fuel : ℕ) (hs : Headers) → header_lines fuel [] hs ≡ hs
unfolding header_lines split_crlf
header_lines-nil zero hs = refl
header_lines-nil (suc fuel) hs = refl

starts_plain-name :
    (s rest : List ℕ) → starts_plain s ≡ true → starts_plain (s ++ (b':' ∷ rest)) ≡ true
unfolding starts_plain is_blank
starts_plain-name [] rest h = refl
starts_plain-name (c ∷ s) rest h = h

starts_plain-serialize :
    (hs : Headers) → are_line_fields hs ≡ true → starts_plain (serialize hs) ≡ true
unfolding serialize are_line_fields is_line_field
starts_plain-serialize [] h = refl
starts_plain-serialize (e ∷ es) h = starts_plain-name e.name _ (ground arith)

pub is_empty-append_cons : (s t : List ℕ) (b : ℕ) → is_empty (s ++ (b ∷ t)) ≡ false
is_empty-append_cons [] t b = refl
is_empty-append_cons (c ∷ s) t b = refl

abbrev pub field_line : Entry → List ℕ
field_line e = e.name ++ (b':' ∷ b' ' ∷ e.value)

split_crlf-serialize :
    (e : Entry) (es : Headers)
    → is_line_field e ≡ true
    → split_crlf (serialize (e ∷ es)) ≡ some (field_line e, serialize es)
unfolding serialize is_line_field lacks
split_crlf-serialize e es h =
    rw (sym (append_assoc e.name (b':' ∷ b' ' ∷ e.value) (b'\r' ∷ b'\n' ∷ serialize es))) (
      split_crlf-line (field_line e) (serialize es)
        (lacks-append b'\r' e.name (b':' ∷ b' ' ∷ e.value) (ground arith) (ground arith)))

add_line-field :
    (e : Entry) (hs : Headers)
    → is_line_field e ≡ true
    → add_line (field_line e) hs ≡ hs ++ (e ∷ [])
unfolding append is_line_field
add_line-field e hs h =
    add_line-parts e.name e.value hs (ground arith) (ground arith) (ground arith) (ground arith)

header_lines-serialize :
    (fuel : ℕ) (hs acc : Headers)
    → length hs ≤ fuel
    → are_line_fields hs ≡ true
    → header_lines fuel (serialize hs) acc ≡ acc ++ hs
unfolding are_line_fields serialize
header_lines-serialize fuel [] acc le h = header_lines-nil fuel acc ∙ sym (append-nil acc)
header_lines-serialize zero (e ∷ es) acc le h = absurd (omega arith)
header_lines-serialize (suc fuel) (e ∷ es) acc le h =
    header_lines-step fuel _ _ _ acc (split_crlf-serialize e es (ground arith))
      (is_empty-append_cons e.name (b' ' ∷ e.value) b':') (starts_plain-serialize es (ground arith))
    ∙ ap (header_lines fuel (serialize es)) (add_line-field e acc (ground arith))
    ∙ header_lines-serialize fuel es (acc ++ (e ∷ [])) (omega arith) (ground arith)
    ∙ append_assoc acc (e ∷ []) es

length-serialize : (hs : Headers) → length hs ≤ length (serialize hs)
unfolding serialize
length-serialize [] = omega arith
length-serialize (e ∷ es) = omega (
  arith,
  length-serialize es,
  length-append e.name (b':' ∷ b' ' ∷ (e.value ++ (b'\r' ∷ b'\n' ∷ serialize es))),
  length-append e.value (b'\r' ∷ b'\n' ∷ serialize es),
)

-- The lines of fields that lines can carry are parsed as those fields, behind the ones there are.
pub parse_header_lines-serialize :
    (hs acc : Headers)
    → are_line_fields hs ≡ true
    → parse_header_lines (serialize hs) acc ≡ acc ++ hs
unfolding parse_header_lines
parse_header_lines-serialize hs acc h =
    header_lines-serialize (length (serialize hs)) hs acc (length-serialize hs) h
