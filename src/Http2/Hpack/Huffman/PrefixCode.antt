-- ===== src/Http2/Hpack/Huffman/PrefixCode.antt =====
-- The Huffman code is a prefix code, so the decoder's search finds a symbol just where its code ends.
use async_net.Base.{ℕ, zero, suc, ◌+◌, ◌-◌, ◌/◌, ◌^◌, ◌≤◌, ◌<◌, ◌≡◌, ◌≢◌, refl, ap, sym, ◌∙◌}
use async_net.Base.{arith, List, [], ◌∷◌, length, get_or, Bool, true, false, not, none, some}
use async_net.Base.{◌==◌, ◌&&◌, ◌||◌, ==_iff, leb, Bool-cases, Option-cases, inl, inr}
use async_net.Http2.Hpack.HuffmanTable.{HuffSym, huff_entry, huff}
use async_net.Http2.Hpack.Huffman.{symbol, find_symbol, match_symbol}
use native.Mathlib.Decide.{ℕ_discrete}

-- The code of `s` is not a prefix of that of `t`.
abbrev pub no_prefix : HuffSym → HuffSym → Bool
no_prefix s t = not (leb s.bits t.bits && (t.code / 2 ^ (t.bits - s.bits) == s.code))

-- The bytes whose code begins with the code that the table gives to `{`.
unfoldable pub is_shadowed : ℕ → Bool
is_shadowed ch =
    let s = symbol ch in let brace = symbol b'{' in not (ch == b'{') && not (no_prefix brace s)

apart_from : ℕ → HuffSym → ℕ → List HuffSym → Bool
apart_from i s j [] = true
apart_from i s j (t ∷ ts) =
    ((no_prefix s t || is_shadowed j) && (no_prefix t s || is_shadowed i))
    && apart_from i s (j + 1) ts

apart : ℕ → List HuffSym → Bool
unfolding apart_from
apart i [] = true
apart i (s ∷ ss) = apart_from i s (i + 1) ss && apart (i + 1) ss

huff-apart : apart 0 huff ≡ true
unfolding apart huff is_shadowed symbol
huff-apart = refl

apart_from_sound :
    (i : ℕ) (s : HuffSym) (j k : ℕ) (ts : List HuffSym) (d : HuffSym)
    → apart_from i s j ts ≡ true
    → k < length ts
    → (no_prefix s (get_or ts k d) || is_shadowed (j + k) ≡ true)
      × (no_prefix (get_or ts k d) s || is_shadowed i ≡ true)
unfolding apart_from
apart_from_sound i s j k [] d h lt = absurd (omega arith)
apart_from_sound i s j zero (t ∷ ts) d h lt = ground arith
apart_from_sound i s j (suc k) (t ∷ ts) d h lt =
    let r = apart_from_sound i s (j + 1) k ts d (ground arith) (omega arith) in
    let e : j + 1 + k ≡ j + suc k = omega arith in rw e at r

-- No code is a prefix of the code of a byte that `{` does not shadow.
apart_sound :
    (first : ℕ) (ss : List HuffSym) (i j : ℕ) (d : HuffSym)
    → apart first ss ≡ true
    → i < length ss
    → j < length ss
    → i ≢ j
    → no_prefix (get_or ss i d) (get_or ss j d) || is_shadowed (first + j) ≡ true
unfolding apart
apart_sound first [] i j d h hi hj ne = absurd (omega arith)
apart_sound first (s ∷ ss) zero zero d h hi hj ne = absurd (ne refl)
apart_sound first (s ∷ ss) zero (suc j) d h hi hj ne =
    let r = apart_from_sound first s (first + 1) j ss d (ground arith) (omega arith) in
    let e : first + 1 + j ≡ first + suc j = omega arith in rw e at (r.0)
apart_sound first (s ∷ ss) (suc i) zero d h hi hj ne =
    let r = apart_from_sound first s (first + 1) i ss d (ground arith) (omega arith) in
    let e : first ≡ first + 0 = omega arith in rw e at (r.1)
apart_sound first (s ∷ ss) (suc i) (suc j) d h hi hj ne =
    let r =
      apart_sound (first + 1) ss i j d (ground arith) (omega arith) (omega arith)
        (λ e. ne (ap suc e)) in
    let e : first + 1 + j ≡ first + suc j = omega arith in rw e at r

-- What the search finds has the code and the number of bits that were searched for.
record Hit (left : ℕ) (ss : List HuffSym) (first code n t : ℕ) (d : HuffSym) : Type 0 where
  index : ℕ
  counted : t ≡ first + index
  tried : index < left
  inside : index < length ss
  on_bits : (get_or ss index d).bits ≡ n
  on_code : (get_or ss index d).code ≡ code

find_symbol_sound :
    (left : ℕ) (ss : List HuffSym) (first code n t : ℕ) (d : HuffSym)
    → find_symbol left ss first code n ≡ some t
    → Hit left ss first code n t d
unfolding find_symbol
find_symbol_sound zero ss first code n t d h = cc
find_symbol_sound (suc left) [] first code n t d h = cc
find_symbol_sound (suc left) (s ∷ ss) first code n t d h =
    elim (Bool-cases (s.bits == n && s.code == code)) [
      | inl hit ↦ record {
        index = 0;
        counted = ground arith;
        tried = omega arith;
        inside = omega arith;
        on_bits = ground arith;
        on_code = ground arith;
      }
      | inr miss ↦ later (find_symbol_sound left ss (first + 1) code n t d (ground arith))
    ]
  where
    later : Hit left ss (first + 1) code n t d → Hit (suc left) (s ∷ ss) first code n t d
    later r = record {
      index = suc r.index;
      counted = omega (arith, r.counted);
      tried = omega (arith, r.tried);
      inside = omega (arith, r.inside);
      on_bits = r.on_bits;
      on_code = r.on_code;
    }

-- The search finds something if the code is there.
find_symbol_complete :
    (left : ℕ) (ss : List HuffSym) (first code n i : ℕ) (d : HuffSym)
    → i < left
    → i < length ss
    → (get_or ss i d).bits ≡ n
    → (get_or ss i d).code ≡ code
    → find_symbol left ss first code n ≢ none
unfolding find_symbol
find_symbol_complete zero ss first code n i d hi hl hb hc = absurd (omega arith)
find_symbol_complete (suc left) [] first code n i d hi hl hb hc = absurd (omega arith)
find_symbol_complete (suc left) (s ∷ ss) first code n zero d hi hl hb hc = ground arith
find_symbol_complete (suc left) (s ∷ ss) first code n (suc i) d hi hl hb hc =
    ground (arith, find_symbol_complete left ss (first + 1) code n i d)

length-huff : length huff ≡ 257
unfolding huff
length-huff = refl

match_symbol_lem : (code n : ℕ) → match_symbol code n ≡ find_symbol 256 huff 0 code n
unfolding match_symbol
match_symbol_lem code n = refl

abbrev no_symbol : HuffSym
no_symbol = huff_entry 0 0

symbol_lem : (ch : ℕ) → symbol ch ≡ get_or huff ch no_symbol
unfolding symbol
symbol_lem ch = refl

found_symbol :
    (code n t : ℕ)
    → match_symbol code n ≡ some t
    → (t < 256) × ((symbol t).bits ≡ n) × ((symbol t).code ≡ code)
found_symbol code n t e =
    let r = find_symbol_sound 256 huff 0 code n t no_symbol (rw (← match_symbol_lem code n) e) in
    let same : t ≡ r.index = omega (arith, r.counted) in
    rw (same, symbol_lem) (r.tried, r.on_bits, r.on_code)

no_prefix_ne :
    (s t : HuffSym) (b : Bool)
    → no_prefix s t || b ≡ true
    → b ≡ false
    → s.bits ≤ t.bits
    → t.code / 2 ^ (t.bits - s.bits) ≢ s.code
no_prefix_ne s t b h ok le e =
    let shorter : leb s.bits t.bits ≡ true = ground arith in
    let equal : (t.code / 2 ^ (t.bits - s.bits) == s.code) ≡ true = (==_iff _ _).1 e in
    cc (rw (shorter, equal) at h)

-- The code of another byte is no prefix of the code of a byte that `{` does not shadow.
symbols_apart :
    (t ch : ℕ)
    → t < 256
    → ch < 256
    → t ≢ ch
    → is_shadowed ch ≡ false
    → (symbol t).bits ≤ (symbol ch).bits
    → (symbol ch).code / 2 ^ ((symbol ch).bits - (symbol t).bits) ≢ (symbol t).code
symbols_apart t ch ht hc ne ok le =
    let r =
      apart_sound 0 huff t ch no_symbol huff-apart (rw length-huff (omega arith))
        (rw length-huff (omega arith)) ne in
    let same : 0 + ch ≡ ch = omega arith in
    rw (symbol_lem t, symbol_lem ch)
      (no_prefix_ne (get_or huff t no_symbol) (get_or huff ch no_symbol) (is_shadowed (0 + ch)) r
        (ap is_shadowed same ∙ ok) (rw (← symbol_lem t, ← symbol_lem ch) le))

-- A byte that `{` does not shadow, its code cut to `n` bits: the search finds nothing before the end
-- of the code.
pub match_symbol_prefix :
    (ch n : ℕ)
    → ch < 256
    → is_shadowed ch ≡ false
    → n < (symbol ch).bits
    → match_symbol ((symbol ch).code / 2 ^ ((symbol ch).bits - n)) n ≡ none
match_symbol_prefix ch n h ok lt =
    elim (Option-cases (match_symbol ((symbol ch).code / 2 ^ ((symbol ch).bits - n)) n)) [
      | inl e ↦ e
      | inr (t, e) ↦
          let (ht, on_bits, on_code) = found_symbol _ n t e in
          let ne : t ≢ ch = λ same. omega (arith, ap (λ (c : ℕ). (symbol c).bits) same) in
          absurd (symbols_apart t ch ht h ne ok (omega arith) (rw on_bits (sym on_code)))
    ]

-- At its end the search finds the byte itself.
pub match_symbol_whole :
    (ch : ℕ)
    → ch < 256
    → is_shadowed ch ≡ false
    → match_symbol (symbol ch).code (symbol ch).bits ≡ some ch
match_symbol_whole ch h ok = elim (Option-cases (match_symbol (symbol ch).code (symbol ch).bits)) [
  | inl e ↦ absurd (
      find_symbol_complete 256 huff 0 (symbol ch).code (symbol ch).bits ch no_symbol h
        (rw length-huff (omega arith)) (ap (λ (s : HuffSym). s.bits) (sym (symbol_lem ch)))
        (ap (λ (s : HuffSym). s.code) (sym (symbol_lem ch))) (sym (match_symbol_lem _ _) ∙ e))
  | inr (t, e) ↦
      let (ht, on_bits, on_code) = found_symbol _ _ t e in
      elim (ℕ_discrete t ch) [
        | yes same ↦ rw same at e
        | no ne ↦
            let cut : (symbol ch).bits - (symbol t).bits ≡ 0 = omega arith in
            absurd (symbols_apart t ch ht h ne ok (omega arith) (rw cut (omega arith)))
      ]
]
