-- ===== src/Http2/Hpack/Int.antt =====
-- `hpack_encode_int` and `hpack_decode_int` of src/http/hpack.cpp: integers with an N-bit prefix.
pub mod RoundTrip
use async_net.Base.{ℕ, zero, suc, ◌+◌, ◌-◌, ◌*◌, ◌/◌, ◌%◌, ◌^◌, List, [], ◌∷◌}
use async_net.Base.{Option, none, some, bit_and, bit_or, ltb, leb, ◌==◌, if◌then◌else◌}
use mathlib.Core.Option

-- `uint8_t max_prefix = (1 << prefix_bits) - 1`
abbrev pub max_prefix : ℕ → ℕ
max_prefix prefix_bits = (2 ^ prefix_bits - 1) % 256

-- The bytes that the loop and the store behind it write; the first argument is the room that is
-- left in `buf`. `none` is the `return 0` of a buffer that is full.
unfoldable pub encode_groups : ℕ → ℕ → Option (List ℕ)
encode_groups zero value = none
encode_groups (suc left) value =
    let rest =
      Option.map (λ bytes. bit_or (bit_and (value % 256) 0x7f) 0x80 ∷ bytes)
        (encode_groups left (value / 2 ^ 7)) in
    if leb 128 value then rest else some (value ∷ [])

-- The bytes written to `buf`, none where the C++ function returns 0.
unfoldable pub encode_int : ℕ → ℕ → ℕ → ℕ → List ℕ
unfolding encode_groups
encode_int zero value prefix_bits mask = []
encode_int (suc left) value prefix_bits mask =
    if ltb value (max_prefix prefix_bits)
    then bit_or mask value ∷ []
    else Option.get_or
        (Option.map (λ bytes. bit_or mask (max_prefix prefix_bits) ∷ bytes)
          (encode_groups left (value - max_prefix prefix_bits)))
        []

-- `done` is the number of bytes consumed and `value`; `fail` is the result 0. `undefined` is a
-- shift of a `uint64_t` by 64 or more, which C++ leaves undefined.
pub data IntResult : Type 0 where
  done : ℕ → ℕ → IntResult
  fail undefined : IntResult

-- The loop, on the bytes from `buf + pos` on.
unfoldable pub decode_groups : List ℕ → ℕ → ℕ → ℕ → IntResult
decode_groups [] pos value m = fail
decode_groups (b ∷ bs) pos value m =
    let value' = (value + bit_and b 0x7f * 2 ^ m % 2 ^ 64) % 2 ^ 64 in
    let rest = decode_groups bs (pos + 1) value' (m + 7) in
    if leb 64 m then undefined else if bit_and b 0x80 == 0 then done (pos + 1) value' else rest

unfoldable pub decode_int : List ℕ → ℕ → IntResult
unfolding decode_groups
decode_int [] prefix_bits = fail
decode_int (b ∷ bs) prefix_bits =
    let value = bit_and b (max_prefix prefix_bits) in
    if ltb value (max_prefix prefix_bits) then done 1 value else decode_groups bs 1 value 0
