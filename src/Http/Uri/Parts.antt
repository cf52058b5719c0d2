-- ===== src/Http/Uri/Parts.antt =====
-- A URL that is written from its parts is parsed into them.
use async_net.Base.{
  ℕ, ◌^◌, ◌<◌, List, [], ◌∷◌, ◌++◌, Bool, true, false, ◌&&◌, bytes, bytes_eq, arith,
}
use async_net.Base.{
  pos, none, some, ◌==◌, ◌≡◌, refl, sym, ap, ◌∙◌, append_assoc, drop, length, Option-cases, inl,
  inr,
}
use async_net.Http.Text.{decimal, split_at_byte, is_digit}
use async_net.Http.Text.Decimal.{from_chars-decimal}
use async_net.Http.Text.Searching.{lacks, lacks-append, split_at_byte-append, lacks-decimal}
use async_net.Http.Headers.{starts_with}
use async_net.Http.Uri.{
  Uri, split_at_text, split_at_last, set_authority, set_path_query, set_rest, parse,
}

-- The parts of a URL, with the path behind its first '/'.
pub record UrlParts : Type 0 where
  pub scheme : List ℕ
  pub host : List ℕ
  pub port : ℕ
  pub path : List ℕ
  pub query : List ℕ
  pub fragment : List ℕ

abbrev path_text : UrlParts → List ℕ
path_text u = u.path ++ (b'?' ∷ (u.query ++ (b'#' ∷ u.fragment)))

abbrev authority_text : UrlParts → List ℕ
authority_text u = u.host ++ (b':' ∷ decimal u.port)

abbrev pub url_text : UrlParts → List ℕ
url_text u = u.scheme ++ (bytes "://" ++ (authority_text u ++ (b'/' ∷ path_text u)))

unfoldable pub are_url_parts : UrlParts → Bool
unfolding lacks
are_url_parts u =
    lacks b':' u.scheme
    && lacks b'/' u.host
    && lacks b'#' u.path
    && lacks b'?' u.path
    && lacks b'#' u.query

split_at_text_here :
    (word s : List ℕ) (c : ℕ)
    → starts_with word (c ∷ s) ≡ true
    → split_at_text word (c ∷ s) ≡ some ([], drop (length word) (c ∷ s))
unfolding split_at_text
split_at_text_here word s c e = elim (Option-cases (split_at_text word s)) [
  | inl n ↦ rw (n, split_at_text) (rw e refl)
  | inr (cut, n) ↦ rw (n, split_at_text) (rw e refl)
]

split_at_text_later :
    (word s : List ℕ) (c : ℕ) (before behind : List ℕ)
    → starts_with word (c ∷ s) ≡ false
    → split_at_text word s ≡ some (before, behind)
    → split_at_text word (c ∷ s) ≡ some (c ∷ before, behind)
unfolding split_at_text
split_at_text_later word s c before behind e n = rw (n, split_at_text) (rw e refl)

starts_with_other :
    (c : ℕ) (s : List ℕ) → (c == b':') ≡ false → starts_with (bytes "://") (c ∷ s) ≡ false
unfolding starts_with bytes_eq
starts_with_other c s h =
    let other : (b':' == c) ≡ false = ground arith in rw (other, starts_with) refl

split_at_scheme :
    (s t : List ℕ)
    → lacks b':' s ≡ true
    → split_at_text (bytes "://") (s ++ (bytes "://" ++ t)) ≡ some (s, t)
unfolding lacks starts_with bytes_eq
split_at_scheme [] t h = split_at_text_here (bytes "://") (bytes "//" ++ t) b':' refl
split_at_scheme (c ∷ s) t h =
    split_at_text_later (bytes "://") (s ++ (bytes "://" ++ t)) c s t
      (starts_with_other c (s ++ (bytes "://" ++ t)) (ground arith))
      (split_at_scheme s t (ground arith))

split_at_last-lacks : (b : ℕ) (s : List ℕ) → lacks b s ≡ true → split_at_last b s ≡ none
unfolding split_at_last lacks
split_at_last-lacks b [] h = refl
split_at_last-lacks b (c ∷ s) h = ground (arith, split_at_last-lacks b s)

split_at_last-append :
    (b : ℕ) (s t : List ℕ) → lacks b t ≡ true → split_at_last b (s ++ (b ∷ t)) ≡ some (s, t)
unfolding split_at_last
split_at_last-append b [] t h = rw (split_at_last-lacks b t h) (ground arith)
split_at_last-append b (c ∷ s) t h = rw (split_at_last-append b s t h) refl

set_authority-authority :
    (u : Uri) (host : List ℕ) (port : ℕ)
    → port < 2 ^ 16
    → set_authority u (host ++ (b':' ∷ decimal port)) ≡ record u { host = host; port = port }
unfolding set_authority is_digit
set_authority-authority u host port h =
    rw (split_at_last-append b':' host (decimal port) (lacks-decimal b':' port refl), set_authority)
      (rw (from_chars-decimal (2 ^ 31) port (pos 0) (omega arith))
        (ap (λ n. record u { host = host; port = n }) (omega arith)))

set_rest-parts :
    (u : Uri) (path query fragment : List ℕ)
    → lacks b'#' path ≡ true
    → lacks b'?' path ≡ true
    → lacks b'#' query ≡ true
    → set_rest u (b'/' ∷ (path ++ (b'?' ∷ (query ++ (b'#' ∷ fragment)))))
      ≡ record u { path = b'/' ∷ path; query = query; fragment = fragment }
unfolding set_path_query lacks set_rest
set_rest-parts u path query fragment h1 h2 h3 =
    ap (set_rest u) (sym (append_assoc (b'/' ∷ path) (b'?' ∷ query) (b'#' ∷ fragment)))
    ∙ rw
        (
          split_at_byte-append b'#' ((b'/' ∷ path) ++ (b'?' ∷ query)) fragment
              (lacks-append b'#' (b'/' ∷ path) (b'?' ∷ query) (ground arith) (ground arith)),
          set_rest,
        )
        (rw (split_at_byte-append b'?' (b'/' ∷ path) query (ground arith)) refl)

parse-cuts :
    (old : Uri) (url scheme behind authority_bytes rest : List ℕ)
    → split_at_text (bytes "://") url ≡ some (scheme, behind)
    → split_at_byte b'/' behind ≡ some (authority_bytes, rest)
    → parse old url
      ≡ set_rest
          (set_authority (record old { raw = url; scheme = scheme }) authority_bytes)
          (b'/' ∷ rest)
unfolding parse
parse-cuts old url scheme behind authority_bytes rest e1 e2 = rw (e1, parse) (rw e2 refl)

-- A URL with all its parts, whose scheme lacks ':', whose host lacks '/', whose path lacks '?' and
-- '#', whose query lacks '#' and whose port is below 2^16, is parsed into these parts, whatever the
-- object held before.
pub parse-url_text :
    (old : Uri) (u : UrlParts)
    → are_url_parts u ≡ true
    → u.port < 2 ^ 16
    → parse old (url_text u) ≡ record {
      raw = url_text u;
      scheme = u.scheme;
      host = u.host;
      port = u.port;
      path = b'/' ∷ u.path;
      query = u.query;
      fragment = u.fragment;
    }
unfolding are_url_parts lacks is_digit
parse-url_text old u h hp =
    parse-cuts old _ u.scheme (authority_text u ++ (b'/' ∷ path_text u)) (authority_text u)
      (path_text u)
      (split_at_scheme u.scheme (authority_text u ++ (b'/' ∷ path_text u)) (ground arith))
      (split_at_byte-append b'/' (authority_text u) (path_text u) (
        lacks-append b'/' u.host (b':' ∷ decimal u.port) (ground arith)
          (lacks-decimal b'/' u.port refl)))
    ∙ ap (λ v. set_rest v (b'/' ∷ path_text u)) (set_authority-authority _ u.host u.port hp)
    ∙ set_rest-parts _ u.path u.query u.fragment (ground arith) (ground arith) (ground arith)
