-- ===== src/Http3/Frame.antt =====
-- src/http/h3_frame.hpp: the frame builders, the payload parsers and `class frame_reader`.
pub mod RoundTrip
use async_net.Base.{
  ℕ, zero, suc, ◌+◌, ◌-◌, ◌*◌, ◌/◌, ◌%◌, ◌^◌, min, List, [], ◌∷◌, ◌++◌, Bool, true, false,
}
use async_net.Base.{
  Option, none, some, ◌==◌, ltb, if◌then◌else◌, length, take, drop, at, replicate, copy_at,
}
use async_net.Http3.Varint.{varint, decode_varint}

-- `enum class frame_type : uint64_t`, as its number.
abbrev pub data_type : ℕ
data_type = 0x00

abbrev pub headers_type : ℕ
headers_type = 0x01

abbrev pub cancel_push_type : ℕ
cancel_push_type = 0x03

abbrev pub settings_type : ℕ
settings_type = 0x04

abbrev pub push_promise_type : ℕ
push_promise_type = 0x05

abbrev pub goaway_type : ℕ
goaway_type = 0x07

abbrev pub max_push_id_type : ℕ
max_push_id_type = 0x0D

-- `struct setting_entry`
pub record SettingEntry : Type 0 where
  pub id : ℕ
  pub value : ℕ

-- `struct frame`
pub record Frame : Type 0 where
  pub type : ℕ
  pub payload : List ℕ

unfoldable pub build_frame : ℕ → List ℕ → List ℕ
build_frame type payload = varint type ++ (varint (length payload) ++ payload)

unfoldable build_data_frame : List ℕ → List ℕ
unfolding build_frame
build_data_frame input = build_frame data_type input

unfoldable build_headers_frame : List ℕ → List ℕ
unfolding build_frame
build_headers_frame qpack_data = build_frame headers_type qpack_data

unfoldable pub settings_payload : List SettingEntry → List ℕ
settings_payload [] = []
settings_payload (s ∷ settings) = varint s.id ++ (varint s.value ++ settings_payload settings)

unfoldable build_settings_frame : List SettingEntry → List ℕ
unfolding build_frame settings_payload
build_settings_frame settings = build_frame settings_type (settings_payload settings)

unfoldable build_goaway_frame : ℕ → List ℕ
unfolding build_frame
build_goaway_frame stream_id = build_frame goaway_type (varint stream_id)

unfoldable build_cancel_push_frame : ℕ → List ℕ
unfolding build_frame
build_cancel_push_frame push_id = build_frame cancel_push_type (varint push_id)

unfoldable pub push_promise_payload : ℕ → List ℕ → List ℕ
push_promise_payload push_id qpack_headers = varint push_id ++ qpack_headers

unfoldable build_push_promise_frame : ℕ → List ℕ → List ℕ
unfolding build_frame push_promise_payload
build_push_promise_frame push_id qpack_headers =
    build_frame push_promise_type (push_promise_payload push_id qpack_headers)

unfoldable build_max_push_id_frame : ℕ → List ℕ
unfolding build_frame
build_max_push_id_frame push_id = build_frame max_push_id_type (varint push_id)

-- `struct push_promise_data`
pub record PushPromiseData : Type 0 where
  pub push_id : ℕ
  pub header_block : List ℕ

unfoldable pub parse_push_promise : List ℕ → PushPromiseData
parse_push_promise input = elim (decode_varint input) [
  | none ↦ record { push_id = 0; header_block = [] }
  | some (pid, n) ↦ record {
    push_id = pid;
    header_block = if ltb n (length input) then drop n input else [];
  }
]

-- The loop of `parse_settings`, on fuel: an entry takes two bytes at least.
unfoldable pub settings_loop : ℕ → List ℕ → List SettingEntry
settings_loop zero input = []
settings_loop (suc fuel) [] = []
settings_loop (suc fuel) (b ∷ bs) = elim (decode_varint (b ∷ bs)) [
  | none ↦ []
  | some (id, n) ↦ elim (decode_varint (drop n (b ∷ bs))) [
    | none ↦ []
    | some (value, k) ↦
        record { id = id; value = value } ∷ settings_loop fuel (drop k (drop n (b ∷ bs)))
  ]
]

unfoldable pub parse_settings : List ℕ → List SettingEntry
unfolding settings_loop
parse_settings input = settings_loop (length input) input

-- `none` is the result false.
unfoldable pub parse_goaway : List ℕ → Option ℕ
parse_goaway input = elim (decode_varint input) [
  | none ↦ none
  | some (stream_id, n) ↦ some stream_id
]
