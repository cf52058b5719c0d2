-- ===== src/Http1/Heads.antt =====
-- The end of the head of a message, as `find_header_end` of src/http/http1_codec.cpp finds it in
-- the text of the serializers.
use async_net.Http.Text.Searching.{lacks, lacks-append}
use async_net.Base.{List, [], ◌∷◌, ◌++◌, append_assoc, ℕ, true, false, arith}
use async_net.Base.{some, ◌≡◌, refl, sym, ap, ◌∙◌, is_empty, ◌==◌, length, length-append, ◌+◌}
use async_net.Http.Headers.{Headers, serialize}
use async_net.Http2.Hpack.Entry.{Entry}
use async_net.Http1.Lines.{crlf, split_crlf, push_before, split_header_end}
use async_net.Http1.Fields.{
  split_crlf-line, field_line, is_line_field, are_line_fields, is_empty-append_cons,
}

split_header_end-cons :
    (c : ℕ) (t : List ℕ)
    → (c == b'\r') ≡ false
    → split_header_end (c ∷ t) ≡ push_before c (split_header_end t)
unfolding split_header_end
split_header_end-cons c [] h = refl
split_header_end-cons c (d ∷ []) h = refl
split_header_end-cons c (d ∷ f ∷ []) h = refl
split_header_end-cons c (d ∷ f ∷ g ∷ t) h = rw h refl

split_header_end-crlf_cons :
    (c : ℕ) (t : List ℕ)
    → (c == b'\r') ≡ false
    → split_header_end (b'\r' ∷ b'\n' ∷ c ∷ t)
      ≡ push_before b'\r' (push_before b'\n' (split_header_end (c ∷ t)))
unfolding split_header_end
split_header_end-crlf_cons c [] h = refl
split_header_end-crlf_cons c (d ∷ t) h =
    rw h (ap (push_before b'\r') (split_header_end-cons b'\n' (c ∷ d ∷ t) refl))

pub split_header_end-line :
    (line t before body : List ℕ)
    → lacks b'\r' line ≡ true
    → split_header_end t ≡ some (before, body)
    → split_header_end (line ++ t) ≡ some (line ++ before, body)
unfolding lacks
split_header_end-line [] t before body h e = e
split_header_end-line (c ∷ line) t before body h e =
    split_header_end-cons c (line ++ t) (ground arith)
    ∙ ap (push_before c) (split_header_end-line line t before body (ground arith) e)

split_header_end-crlf_line :
    (line t before body : List ℕ)
    → lacks b'\r' line ≡ true
    → is_empty line ≡ false
    → split_header_end t ≡ some (before, body)
    → split_header_end (crlf ++ (line ++ t)) ≡ some (crlf ++ (line ++ before), body)
unfolding lacks
split_header_end-crlf_line [] t before body h ne e = cc
split_header_end-crlf_line (c ∷ line) t before body h ne e =
    split_header_end-crlf_cons c (line ++ t) (ground arith)
    ∙ ap (λ cut. push_before b'\r' (push_before b'\n' cut))
        (split_header_end-line (c ∷ line) t before body h e)

-- The fields, each behind the end of the line before it.
unfoldable pub behind_crlf : Headers → List ℕ
behind_crlf [] = []
behind_crlf (e ∷ es) = crlf ++ (field_line e ++ behind_crlf es)

pub behind_crlf-serialize : (hs : Headers) → behind_crlf hs ++ crlf ≡ crlf ++ serialize hs
unfolding behind_crlf serialize
behind_crlf-serialize [] = refl
behind_crlf-serialize (e ∷ es) =
    ap (λ s. b'\r' ∷ b'\n' ∷ s)
      (append_assoc (field_line e) (behind_crlf es) crlf
        ∙ ap (λ s. field_line e ++ s) (behind_crlf-serialize es)
        ∙ append_assoc e.name (b':' ∷ b' ' ∷ e.value) (crlf ++ serialize es))

serialize-append :
    (e : Entry) (es : Headers) (t : List ℕ)
    → serialize (e ∷ es) ++ t ≡ field_line e ++ (crlf ++ (serialize es ++ t))
unfolding serialize
serialize-append e es t =
    ap (λ s. s ++ t) (sym (append_assoc e.name (b':' ∷ b' ' ∷ e.value) (crlf ++ serialize es)))
    ∙ append_assoc (field_line e) (crlf ++ serialize es) t

pub lacks-field_line : (e : Entry) → is_line_field e ≡ true → lacks b'\r' (field_line e) ≡ true
unfolding is_line_field lacks
lacks-field_line e h =
    lacks-append b'\r' e.name (b':' ∷ b' ' ∷ e.value) (ground arith) (ground arith)

-- The fields of a message, between the line before them and the body.
pub split_header_end-serialize :
    (hs : Headers) (body : List ℕ)
    → are_line_fields hs ≡ true
    → split_header_end (crlf ++ (serialize hs ++ (crlf ++ body))) ≡ some (behind_crlf hs, body)
unfolding behind_crlf are_line_fields serialize split_header_end
split_header_end-serialize [] body h = refl
split_header_end-serialize (e ∷ es) body h =
    ap (λ s. split_header_end (crlf ++ s)) (serialize-append e es (crlf ++ body))
    ∙ split_header_end-crlf_line (field_line e) _ _ body (lacks-field_line e (ground arith))
        (is_empty-append_cons e.name (b' ' ∷ e.value) b':')
        (split_header_end-serialize es body (ground arith))

-- The first line of a message, in front of its fields.
pub split_crlf-behind_crlf :
    (line : List ℕ) (hs : Headers)
    → lacks b'\r' line ≡ true
    → split_crlf ((line ++ behind_crlf hs) ++ crlf) ≡ some (line, serialize hs)
split_crlf-behind_crlf line hs h =
    ap split_crlf
      (append_assoc line (behind_crlf hs) crlf ∙ ap (λ s. line ++ s) (behind_crlf-serialize hs))
    ∙ split_crlf-line line (serialize hs) h

pub length-message :
    (line : List ℕ) (hs : Headers) (bd : List ℕ)
    → length (line ++ (crlf ++ (serialize hs ++ (crlf ++ bd))))
      ≡ length (line ++ behind_crlf hs) + 4 + length bd
length-message line hs bd = omega (
  arith,
  length-append line (crlf ++ (serialize hs ++ (crlf ++ bd))),
  length-append (serialize hs) (crlf ++ bd),
  length-append line (behind_crlf hs),
  length-append (behind_crlf hs) crlf,
  ap length (behind_crlf-serialize hs),
)

-- A message with more bytes behind it.
pub message-append :
    (line : List ℕ) (hs : Headers) (bd tail : List ℕ)
    → (line ++ (crlf ++ (serialize hs ++ (crlf ++ bd)))) ++ tail
      ≡ line ++ (crlf ++ (serialize hs ++ (crlf ++ (bd ++ tail))))
message-append line hs bd tail =
    append_assoc line (crlf ++ (serialize hs ++ (crlf ++ bd))) tail
    ∙ ap (λ s. line ++ (crlf ++ s)) (append_assoc (serialize hs) (crlf ++ bd) tail)
