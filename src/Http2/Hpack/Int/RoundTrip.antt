-- ===== src/Http2/Hpack/Int/RoundTrip.antt =====
-- `hpack_decode_int` reads back what `hpack_encode_int` wrote.
use async_net.Base.{ℕ, zero, suc, ◌+◌, ◌-◌, ◌*◌, ◌/◌, ◌%◌, ◌^◌, ◌≤◌, ◌<◌, ◌≡◌, ap, arith}
use async_net.Base.{List, [], ◌∷◌, ◌++◌, length, some, All}
use async_net.Base.{bit_and, bit_or, and_0x7f, and_0x80, or_0x80, join, prefix_fits}
use async_net.Http2.Hpack.Int.{max_prefix, encode_groups, encode_int, done}
use async_net.Http2.Hpack.Int.{undefined, decode_groups, decode_int}
use native.Mathlib.Nat.{div-add-mod, one-le-pow}
use native.Mathlib.Decide.{dec_lt}
use native.Mathlib.Numerals.{towards_suc}

shift_seven : (m : ℕ) → 2 ^ (m + 7) ≡ 128 * 2 ^ m
shift_seven m = simp towards_suc (omega arith)

-- The lowest seven bits of `v` and the rest, both shifted by `m`.
split_group : (v m : ℕ) → v * 2 ^ m ≡ v % 128 * 2 ^ m + v / 128 * 2 ^ (m + 7)
split_group v m = omega (
  arith,
  ap (λ (t : ℕ). t * 2 ^ m) (div-add-mod v 128),
  ap (λ (t : ℕ). v / 128 * t) (shift_seven m),
)

last_group :
    (v pos acc m : ℕ) (rest : List ℕ)
    → v < 128
    → m < 64
    → acc + v * 2 ^ m < 2 ^ 64
    → decode_groups (v ∷ rest) pos acc m ≡ done (pos + 1) (acc + v * 2 ^ m)
unfolding decode_groups
last_group v pos acc m rest hv hm fits = ground (arith, and_0x7f v, and_0x80 v)

inner_group :
    (g pos acc m : ℕ) (rest : List ℕ)
    → g < 128
    → m < 64
    → acc + g * 2 ^ m < 2 ^ 64
    → decode_groups ((g + 128) ∷ rest) pos acc m
      ≡ decode_groups rest (pos + 1) (acc + g * 2 ^ m) (m + 7)
unfolding decode_groups
inner_group g pos acc m rest hg hm fits = ground (arith, and_0x7f (g + 128), and_0x80 (g + 128))

group_byte : (v : ℕ) → bit_or (bit_and (v % 256) 0x7f) 0x80 ≡ v % 128 + 128
group_byte v =
    rw (and_0x7f (v % 256) (omega arith), or_0x80 (v % 256 % 128) (omega arith)) (omega arith)

-- What is known of the groups of `v` written into `left` bytes of room, and of reading them back
-- from bit `m` on with `acc` read before.
record GroupsOf (left v pos acc m : ℕ) (rest : List ℕ) (k : ℕ) : Type 0 where
  bytes : List ℕ
  written : encode_groups left v ≡ some bytes
  back : decode_groups (bytes ++ rest) pos acc m ≡ done (pos + length bytes) (acc + v * 2 ^ m)
  short : length bytes ≤ suc k

one_group :
    (k left v pos acc m : ℕ) (rest : List ℕ)
    → v < 128
    → m < 64
    → acc + v * 2 ^ m < 2 ^ 64
    → GroupsOf (suc left) v pos acc m rest k
unfolding encode_groups
one_group k left v pos acc m rest hv hm fits = record {
  bytes = v ∷ [];
  written = ground arith;
  back = last_group v pos acc m rest hv hm fits;
  short = omega arith;
}

more_groups :
    (k left v pos acc m : ℕ) (rest : List ℕ)
    → 128 ≤ v
    → m < 64
    → acc + v * 2 ^ m < 2 ^ 64
    → GroupsOf left (v / 128) (pos + 1) (acc + v % 128 * 2 ^ m) (m + 7) rest k
    → GroupsOf (suc left) v pos acc m rest (suc k)
unfolding encode_groups
more_groups k left v pos acc m rest hv hm fits r = record {
  bytes = (v % 128 + 128) ∷ r.bytes;
  written = ground (arith, r.written, group_byte v);
  back = ground (arith, r.back, split_group v m, inner_group (v % 128) pos acc m (r.bytes ++ rest));
  short = omega (arith, r.short);
}

groups :
    (k left v pos acc m : ℕ) (rest : List ℕ)
    → v < 128 ^ suc k
    → k < left
    → m + 7 * k < 64
    → acc + v * 2 ^ m < 2 ^ 64
    → GroupsOf left v pos acc m rest k
groups k zero v pos acc m rest hv hl hm fits = absurd (omega arith)
groups zero (suc left) v pos acc m rest hv hl hm fits =
    one_group zero left v pos acc m rest (omega arith) (omega arith) fits
groups (suc k) (suc left) v pos acc m rest hv hl hm fits = elim (dec_lt v 128) [
  | yes small ↦ one_group (suc k) left v pos acc m rest small (omega arith) fits
  | no big ↦ more_groups k left v pos acc m rest (omega arith) (omega arith) fits (
      groups k left (v / 128) (pos + 1) (acc + v % 128 * 2 ^ m) (m + 7) rest (omega arith)
        (omega arith) (omega arith) (omega (arith, split_group v m)))
]

-- `hpack_decode_int` reads back every 64-bit value that `hpack_encode_int` wrote behind a mask that
-- leaves the prefix clear, and consumes just the bytes that were written: 1 to 11 of them.
pub decode_int-encode_int :
    (left value n mask : ℕ) (rest : List ℕ)
    → n < 9
    → mask + 2 ^ n ≤ 256
    → mask % 2 ^ n ≡ 0
    → value < 2 ^ 64
    → 10 ≤ left
    → (decode_int (encode_int (suc left) value n mask ++ rest) n
        ≡ done (length (encode_int (suc left) value n mask)) value)
      × (0 < length (encode_int (suc left) value n mask))
      × (length (encode_int (suc left) value n mask) ≤ 11)
unfolding decode_int encode_int
decode_int-encode_int left value n mask rest hn hm e hv hl = elim (dec_lt value (max_prefix n)) [
  | yes small ↦
      ground (arith, prefix_fits n hn, join n mask value hn hm e (omega (arith, prefix_fits n hn)))
  | no big ↦
      let r =
        groups 9 left (value - max_prefix n) 1 (max_prefix n) 0 rest (omega arith) hl (omega arith)
          (omega arith) in
      ground (
        arith,
        r.written,
        r.back,
        r.short,
        prefix_fits n hn,
        join n mask (max_prefix n) hn hm e
            (omega (arith, prefix_fits n hn, one-le-pow n 2 (omega arith))),
      )
]

-- The first byte is the mask with the prefix in it.
pub encode_int-cons :
    (left value n mask : ℕ)
    → value < 2 ^ 64
    → 10 ≤ left
    → (p : ℕ) × (bs : List ℕ) × (encode_int (suc left) value n mask ≡ bit_or mask p ∷ bs)
      × (p ≤ max_prefix n)
unfolding encode_int
encode_int-cons left value n mask hv hl = elim (dec_lt value (max_prefix n)) [
  | yes small ↦ (value, [], ground arith, omega arith)
  | no big ↦
      let r =
        groups 9 left (value - max_prefix n) 1 (max_prefix n) 0 [] (omega arith) hl (omega arith)
          (omega arith) in
      (max_prefix n, r.bytes, ground (arith, r.written), omega arith)
]

-- Ten continuation bytes behind a full prefix, and one byte more, make `hpack_decode_int` shift a
-- `uint64_t` by 70 bits, which C++ leaves undefined.
decode_groups_overlong :
    (k : ℕ) (groups : List ℕ) (b : ℕ) (rest : List ℕ) (pos acc m : ℕ)
    → length groups ≡ k
    → All (λ g. (128 ≤ g) × (g < 256)) groups
    → 64 ≤ m + 7 * k
    → decode_groups (groups ++ (b ∷ rest)) pos acc m ≡ undefined
unfolding decode_groups
decode_groups_overlong k [] b rest pos acc m hk h hm = ground arith
decode_groups_overlong zero (g ∷ gs) b rest pos acc m hk h hm = absurd (omega arith)
decode_groups_overlong (suc k) (g ∷ gs) b rest pos acc m hk h hm =
    let value' = (acc + bit_and g 0x7f * 2 ^ m % 2 ^ 64) % 2 ^ 64 in
    ground (
      arith,
      and_0x80 g,
      decode_groups_overlong k gs b rest (pos + 1) value' (m + 7) (omega arith) h.1 (omega arith),
    )

-- An integer with a full prefix and ten continuation bytes: whatever byte comes next,
-- `hpack_decode_int` shifts a `uint64_t` by 70, which C++ leaves undefined.
pub decode_int_overlong :
    (b0 n : ℕ) (groups : List ℕ) (b : ℕ) (rest : List ℕ)
    → bit_and b0 (max_prefix n) ≡ max_prefix n
    → length groups ≡ 10
    → All (λ g. (128 ≤ g) × (g < 256)) groups
    → decode_int (b0 ∷ (groups ++ (b ∷ rest))) n ≡ undefined
unfolding decode_int
decode_int_overlong b0 n groups b rest full ten h = ground (
  arith,
  decode_groups_overlong 10 groups b rest 1 (bit_and b0 (max_prefix n)) 0 ten h (omega arith),
)
