-- ===== src/WebSocket/Sha1.antt =====
-- `sha1_detail` of include/async_net/http/websocket.hpp.
pub mod Padding
use async_net.Base.{ℕ, zero, suc, ◌+◌, ◌-◌, ◌*◌, ◌/◌, ◌%◌, ◌^◌, List, [], ◌∷◌, ◌++◌, if◌then◌else◌}
use async_net.Base.{
  bit_and, bit_or, bit_xor, ◌==◌, ltb, length, take, drop, at, byte_at, store_u32, load_u32,
}

-- `uint32_t` operations.
abbrev add_u32 : ℕ → ℕ → ℕ
add_u32 a b = (a + b) % 2 ^ 32

abbrev not_u32 : ℕ → ℕ
not_u32 a = bit_xor a (2 ^ 32 - 1)

unfoldable pub left_rotate : ℕ → ℕ → ℕ
left_rotate value bits = bit_or (value * 2 ^ bits % 2 ^ 32) (value / 2 ^ (32 - bits))

-- The loop that adds zeros until the size is 56 modulo 64, on fuel.
unfoldable pub fill : ℕ → List ℕ → List ℕ
fill zero msg = msg
fill (suc fuel) msg =
    let rest = fill fuel (msg ++ (0x00 ∷ [])) in if length msg % 64 == 56 then msg else rest

-- Fewer than 64 zeros are added. The length in bits is a `uint64_t`.
unfoldable pub pad_message : List ℕ → List ℕ
unfolding fill
pad_message input =
    let n = length input * 8 % 2 ^ 64 in
    fill 64 (input ++ (0x80 ∷ []))
    ++ (byte_at n 56
        ∷ byte_at n 48
        ∷ byte_at n 40
        ∷ byte_at n 32
        ∷ byte_at n 24
        ∷ byte_at n 16
        ∷ byte_at n 8
        ∷ byte_at n 0
        ∷ [])

-- `w[0]` to `w[15]`: the first words of a chunk.
unfoldable pub load_words : ℕ → List ℕ → List ℕ
load_words zero msg = []
load_words (suc n) msg =
    load_u32 (at msg 0) (at msg 1) (at msg 2) (at msg 3) ∷ load_words n (drop 4 msg)

-- `w[16]` to `w[79]`: each from the words that are there.
unfoldable pub extend_words : ℕ → List ℕ → List ℕ
unfolding left_rotate
extend_words zero w = w
extend_words (suc n) w =
    let i = length w in
    extend_words n (
      w
      ++ (left_rotate
            (bit_xor (bit_xor (bit_xor (at w (i - 3)) (at w (i - 8))) (at w (i - 14)))
              (at w (i - 16)))
            1
          ∷ []))

-- The five words of the state: `h0` to `h4`, or `a` to `e`.
pub record Words : Type 0 where
  pub a : ℕ
  pub b : ℕ
  pub c : ℕ
  pub d : ℕ
  pub e : ℕ

unfoldable pub round_f : ℕ → ℕ → ℕ → ℕ → ℕ
round_f i b c d =
    if ltb i 20
    then bit_or (bit_and b c) (bit_and (not_u32 b) d)
    else if ltb i 40
    then bit_xor (bit_xor b c) d
    else if ltb i 60
    then bit_or (bit_or (bit_and b c) (bit_and b d)) (bit_and c d)
    else bit_xor (bit_xor b c) d

unfoldable pub round_k : ℕ → ℕ
round_k i =
    if ltb i 20
    then 0x5A827999
    else if ltb i 40
    then 0x6ED9EBA1
    else if ltb i 60
    then 0x8F1BBCDC
    else 0xCA62C1D6

unfoldable pub round : ℕ → ℕ → Words → Words
unfolding left_rotate round_f round_k
round i word s = record {
  a =
      add_u32
        (add_u32 (add_u32 (add_u32 (left_rotate s.a 5) (round_f i s.b s.c s.d)) s.e) (round_k i))
        word;
  b = s.a;
  c = left_rotate s.b 30;
  d = s.c;
  e = s.d;
}

unfoldable pub rounds : ℕ → List ℕ → Words → Words
unfolding round
rounds i [] s = s
rounds i (word ∷ words) s = rounds (i + 1) words (round i word s)

-- One chunk of 64 bytes.
unfoldable pub process : List ℕ → Words → Words
unfolding rounds load_words extend_words
process chunk h =
    let s = rounds 0 (extend_words 64 (load_words 16 chunk)) h in
    record {
      a = add_u32 h.a s.a;
      b = add_u32 h.b s.b;
      c = add_u32 h.c s.c;
      d = add_u32 h.d s.d;
      e = add_u32 h.e s.e;
    }

-- The loop over the chunks, on their number.
unfoldable pub process_all : ℕ → List ℕ → Words → Words
unfolding process
process_all zero msg h = h
process_all (suc n) msg h = process_all n (drop 64 msg) (process (take 64 msg) h)

abbrev start_words : Words
start_words = record {
  a = 0x67452301;
  b = 0xEFCDAB89;
  c = 0x98BADCFE;
  d = 0x10325476;
  e = 0xC3D2E1F0;
}

unfoldable pub compute : List ℕ → List ℕ
unfolding pad_message process_all
compute input =
    let msg = pad_message input in
    let h = process_all ((length msg + 63) / 64) msg start_words in
    store_u32 h.a ++ (store_u32 h.b ++ (store_u32 h.c ++ (store_u32 h.d ++ store_u32 h.e)))
