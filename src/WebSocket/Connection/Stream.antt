-- ===== src/WebSocket/Connection/Stream.antt =====
-- How the network splits the bytes of a stream does not matter to `read_frame` and `receive`.
use async_net.Base.{ℕ, ◌≡◌, refl, ap, sym, ◌∙◌, List, [], ◌∷◌, ◌++◌}
use async_net.Base.{drop, drop-append_le, append_assoc, append-nil, is_empty}
use async_net.Base.{true, false, All}
use async_net.Base.{join_chunks}
use async_net.WebSocket.Frame.{Frame, ParseResult, parsed, more, length_error, parse_frame}
use async_net.WebSocket.Codec.Prefix.{parse_frame-append, parse_frame-append_error}
use async_net.WebSocket.Connection.{ReadResult, got, closed, try_parse, read_frame}

-- A read that returns data.
abbrev pub IsChunk : List ℕ → Type 0
IsChunk chunk = is_empty chunk ≡ false

-- A result as seen on the stream of bytes: what is left of it, however it is split.
unfoldable pub whole : ReadResult → ReadResult
whole (got frm buffer chunks) = got frm (buffer ++ join_chunks chunks) []
whole (closed buffer chunks) = closed (buffer ++ join_chunks chunks) []
whole ReadResult.thrown = ReadResult.thrown

try_parse_lem : (buffer : List ℕ) → try_parse buffer ≡ parse_frame buffer
unfolding try_parse parse_frame
try_parse_lem [] = refl
try_parse_lem (b ∷ bs) = refl

pub data Parse (buffer : List ℕ) : Type 0 where
  found : (f : Frame) (n : ℕ) → parse_frame buffer ≡ parsed f n → Parse buffer
  lacking : parse_frame buffer ≡ more → Parse buffer
  wrong : parse_frame buffer ≡ length_error → Parse buffer

pub parse_of : (buffer : List ℕ) (r : ParseResult) → parse_frame buffer ≡ r → Parse buffer
parse_of buffer (parsed f n) e = found f n e
parse_of buffer more e = lacking e
parse_of buffer length_error e = wrong e

-- `read_frame` on what it finds in its buffer.
pub read_found :
    (buffer : List ℕ) (chunks : List (List ℕ)) (f : Frame) (n : ℕ)
    → parse_frame buffer ≡ parsed f n
    → read_frame buffer chunks ≡ got f (drop n buffer) chunks
unfolding read_frame
read_found buffer [] f n e = rw (try_parse_lem buffer ∙ e, read_frame) refl
read_found buffer (c ∷ cs) f n e = rw (try_parse_lem buffer ∙ e, read_frame) refl

pub read_wrong :
    (buffer : List ℕ) (chunks : List (List ℕ))
    → parse_frame buffer ≡ length_error
    → read_frame buffer chunks ≡ ReadResult.thrown
unfolding read_frame
read_wrong buffer [] e = rw (try_parse_lem buffer ∙ e, read_frame) refl
read_wrong buffer (c ∷ cs) e = rw (try_parse_lem buffer ∙ e, read_frame) refl

pub read_closed :
    (buffer : List ℕ) → parse_frame buffer ≡ more → read_frame buffer [] ≡ closed buffer []
unfolding read_frame
read_closed buffer e = rw (try_parse_lem buffer ∙ e, read_frame) refl

pub read_on :
    (buffer c : List ℕ) (cs : List (List ℕ))
    → parse_frame buffer ≡ more
    → IsChunk c
    → read_frame buffer (c ∷ cs) ≡ read_frame (buffer ++ c) cs
unfolding read_frame
read_on buffer c cs e h = rw (try_parse_lem buffer ∙ e, read_frame) (rw h refl)

pub read_empty :
    (buffer c : List ℕ) (cs : List (List ℕ))
    → parse_frame buffer ≡ more
    → is_empty c ≡ true
    → read_frame buffer (c ∷ cs) ≡ closed buffer cs
unfolding read_frame
read_empty buffer c cs e h = rw (try_parse_lem buffer ∙ e, read_frame) (rw h refl)

-- Where no read is empty, `read_frame` finds the same frame, and leaves the same bytes, as if all had
-- come in one piece.
pub whole-read_frame :
    (buffer : List ℕ) (chunks : List (List ℕ))
    → All IsChunk chunks
    → whole (read_frame buffer chunks) ≡ whole (read_frame (buffer ++ join_chunks chunks) [])
unfolding join_chunks whole
whole-read_frame buffer [] h = ap (λ b. whole (read_frame b [])) (sym (append-nil buffer))
whole-read_frame buffer (c ∷ cs) h = elim (parse_of buffer (parse_frame buffer) refl) [
  | found f n e ↦
      let (later, two, inside) = parse_frame-append buffer (c ++ join_chunks cs) f n e in
      rw
        (
          read_found buffer (c ∷ cs) f n e,
          read_found (buffer ++ (c ++ join_chunks cs)) [] f n later,
        )
        (ap (λ t. got f t [])
          (sym (drop-append_le n buffer (c ++ join_chunks cs) inside) ∙ sym (append-nil _)))
  | lacking e ↦
      ap whole (read_on buffer c cs e h.0)
      ∙ whole-read_frame (buffer ++ c) cs h.1
      ∙ ap (λ b. whole (read_frame b [])) (append_assoc buffer c (join_chunks cs))
  | wrong e ↦ ap whole (
      read_wrong buffer (c ∷ cs) e
      ∙ sym (
          read_wrong (buffer ++ (c ++ join_chunks cs)) []
            (parse_frame-append_error buffer (c ++ join_chunks cs) e)))
]
