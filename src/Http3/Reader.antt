-- ===== src/Http3/Reader.antt =====
-- `class frame_reader` of src/http/h3_frame.hpp: the incremental parser of frames.
pub mod Integers
pub mod Delivery
use async_net.Base.{ℕ, zero, suc, ◌+◌, ◌-◌, ◌/◌, ◌^◌, min, List, [], ◌∷◌, ◌++◌, Bool, true, false}
use async_net.Base.{
  Option, none, some, ◌==◌, if◌then◌else◌, length, take, drop, at, replicate, copy_at,
}
use async_net.Http3.Varint.{decode_varint}
use async_net.Http3.Frame.{Frame, data_type}

-- `enum class state`
pub data State : Type 0 where
  read_type read_length read_payload complete : State

pub record Reader : Type 0 where
  pub state : State
  pub current_type : ℕ
  pub type_val : ℕ
  pub length_val : ℕ
  pub current_length : ℕ
  pub payload_buf : List ℕ
  pub varint_complete : Bool
  pub varint_buf : List ℕ
  pub varint_buf_len : ℕ
  pub varint_bytes_expected : ℕ

abbrev pub new_reader : Reader
new_reader = record {
  state = read_type;
  current_type = data_type;
  type_val = 0;
  length_val = 0;
  current_length = 0;
  payload_buf = [];
  varint_complete = false;
  varint_buf = replicate 8 0;
  varint_buf_len = 0;
  varint_bytes_expected = 0;
}

-- The length of an integer by the top two bits of its first byte.
unfoldable pub bytes_expected : ℕ → ℕ
bytes_expected b =
    let prefix = b / 2 ^ 6 in
    if prefix == 0 then 1 else if prefix == 1 then 2 else if prefix == 2 then 4 else 8

-- The first half of `feed_varint`: the first byte says how many there are.
unfoldable pub start_varint : Reader → List ℕ → Reader
unfolding bytes_expected
start_varint r input =
    if r.varint_bytes_expected == 0
    then record r { varint_bytes_expected = bytes_expected (at input 0); varint_buf_len = 0 }
    else r

unfoldable pub copy_varint : Reader → List ℕ → ℕ → Reader
copy_varint r input to_copy = record r {
  varint_buf = copy_at r.varint_buf r.varint_buf_len (take to_copy input);
  varint_buf_len = r.varint_buf_len + to_copy;
}

-- The end of `feed_varint`: an integer that has all its bytes is decoded into `accum`.
unfoldable pub end_varint : Reader → ℕ → Reader × ℕ
end_varint r accum =
    if r.varint_buf_len == r.varint_bytes_expected
    then elim (decode_varint (take r.varint_buf_len r.varint_buf)) [
      | none ↦ (r, accum)
      | some (val, n) ↦
          (record r { varint_complete = true; varint_bytes_expected = 0; varint_buf_len = 0 }, val)
    ]
    else (r, accum)

-- The reader, `accum` and the result.
unfoldable pub feed_varint : Reader → List ℕ → ℕ → Reader × ℕ × ℕ
feed_varint r input accum =
    if length input == 0
    then (r, accum, 0)
    else let started = start_varint r input in
      let to_copy = min (started.varint_bytes_expected - started.varint_buf_len) (length input) in
      let (r', accum') = end_varint (copy_varint started input to_copy) accum in
      (r', accum', to_copy)

-- What the loop does behind `feed_varint` in the states `READ_TYPE` and `READ_LENGTH`.
unfoldable pub end_type : Reader → Reader
end_type r =
    if r.varint_complete
    then record r {
      current_type = r.type_val;
      type_val = 0;
      varint_complete = false;
      state = read_length;
    }
    else r

unfoldable pub end_length : Reader → Reader
end_length r =
    if r.varint_complete
    then record r {
      current_length = r.length_val;
      length_val = 0;
      varint_complete = false;
      payload_buf = [];
      state = read_payload;
    }
    else r

-- The `switch` of `feed`: the reader and the bytes consumed; `none` is a `return`.
unfoldable pub round_in : State → Reader → List ℕ → Option (Reader × ℕ)
round_in read_type r input =
    let (r', val, n) = feed_varint r input r.type_val in
    if n == 0 then none else some (end_type (record r' { type_val = val }), n)
round_in read_length r input =
    let (r', val, n) = feed_varint r input r.length_val in
    if n == 0 then none else some (end_length (record r' { length_val = val }), n)
round_in read_payload r input =
    let to_copy = min (r.current_length - length r.payload_buf) (length input) in
    let payload = r.payload_buf ++ take to_copy input in
    some (
      record r {
        payload_buf = payload;
        state = if length payload == r.current_length then complete else read_payload;
      },
      to_copy,
    )
round_in complete r input = none

-- The loop, on fuel; `input` is what is left of the data.
unfoldable pub feed_loop : ℕ → Reader → List ℕ → ℕ → Reader × ℕ
feed_loop zero r input consumed = (r, consumed)
feed_loop (suc fuel) r [] consumed = (r, consumed)
feed_loop (suc fuel) r (b ∷ bs) consumed = elim (round_in r.state r (b ∷ bs)) [
  | none ↦ (r, consumed)
  | some (r', n) ↦ feed_loop fuel r' (drop n (b ∷ bs)) (consumed + n)
]

-- A round takes a byte at least, but for the one that completes a frame, behind which the loop ends.
unfoldable pub feed : Reader → List ℕ → Reader × ℕ
unfolding feed_loop
feed r input = feed_loop (length input + 1) r input 0

unfoldable pub has_frame : Reader → Bool
has_frame r = elim r.state [ complete ↦ true | _ ↦ false ]

unfoldable pub take_frame : Reader → Frame × Reader
take_frame r = (
  record { type = r.current_type; payload = r.payload_buf },
  record r {
    state = read_type;
    type_val = 0;
    length_val = 0;
    varint_complete = false;
    payload_buf = [];
  },
)

unfoldable reset : Reader → Reader
reset r = record r {
  state = read_type;
  type_val = 0;
  length_val = 0;
  varint_complete = false;
  payload_buf = [];
}
