-- ===== src/Http2/Frame.antt =====
-- src/http/h2_frame.hpp: the frame header, the frame builders and the payload parsers.
-- An `int32_t` stands as its 32-bit pattern, and a string as the list of its bytes.
pub mod Flag
pub mod Code
pub mod Enums
pub mod RoundTrip
use async_net.Base.{
  ℕ, zero, suc, ◌+◌, ◌*◌, ◌/◌, ◌%◌, ◌^◌, List, [], ◌∷◌, ◌++◌, Bool, true, false, not,
}
use async_net.Base.{bit_and, ◌==◌, ltb, if◌then◌else◌, length, take, drop, at, byte_at}
use async_net.Base.{store_u32, load_u32}
use Flag
use Code.{FrameType, data_frame, settings, window_update, goaway, rst_stream, ping, push_promise}
use Code.{frame_type_code, frame_type_of, ErrorCode, no_err, error_number, error_code_of}
use Code.{SettingId, setting_number, setting_id_of}

abbrev pub frame_header_size : ℕ
frame_header_size = 9

abbrev pub settings_param_size : ℕ
settings_param_size = 6

-- `struct frame_header`
pub record FrameHeader : Type 0 where
  pub length : ℕ
  pub type : FrameType
  pub flags : ℕ
  pub stream_id : ℕ

abbrev pub default_header : FrameHeader
default_header = record { length = 0; type = data_frame; flags = 0; stream_id = 0 }

unfoldable pub has_flag : FrameHeader → ℕ → Bool
has_flag h f = not (bit_and h.flags f == 0)

-- `static_cast<uint32_t>(stream_id) & 0x7FFFFFFF`
abbrev pub low_31 : ℕ → ℕ
low_31 x = x % 2 ^ 31

-- The nine bytes that `write_to` stores.
unfoldable pub write_to : FrameHeader → List ℕ
unfolding frame_type_code
write_to h =
    byte_at h.length 16
    ∷ byte_at h.length 8
    ∷ byte_at h.length 0
    ∷ frame_type_code h.type
    ∷ h.flags
    ∷ store_u32 (low_31 h.stream_id)

unfoldable pub read_from : List ℕ → FrameHeader
unfolding frame_type_of
read_from buf = record {
  length = at buf 0 * 2 ^ 16 + at buf 1 * 2 ^ 8 + at buf 2;
  type = frame_type_of (at buf 3);
  flags = at buf 4;
  stream_id = low_31 (load_u32 (at buf 5) (at buf 6) (at buf 7) (at buf 8));
}

-- `struct frame`
pub record Frame : Type 0 where
  pub hdr : FrameHeader
  pub payload : List ℕ

unfoldable pub build_frame : FrameType → ℕ → ℕ → List ℕ → List ℕ
unfolding write_to
build_frame type flags stream_id payload =
    write_to (record {
      length = length payload % 2 ^ 32;
      type = type;
      flags = flags;
      stream_id = stream_id;
    })
    ++ payload

-- `struct setting_entry`
pub record SettingEntry : Type 0 where
  pub id : SettingId
  pub value : ℕ

-- The six bytes that the loop of `build_settings_frame` stores for one entry.
unfoldable pub store_setting : SettingEntry → List ℕ
unfolding setting_number
store_setting e =
    byte_at (setting_number e.id) 8 ∷ byte_at (setting_number e.id) 0 ∷ store_u32 e.value

unfoldable pub settings_payload : List SettingEntry → List ℕ
unfolding store_setting
settings_payload [] = []
settings_payload (e ∷ es) = store_setting e ++ settings_payload es

unfoldable pub build_settings_frame : List SettingEntry → Bool → List ℕ
unfolding build_frame settings_payload
build_settings_frame es ack =
    build_frame settings (if ack then Flag.ack else Flag.clear) 0
      (if not ack then settings_payload es else [])

unfoldable pub build_window_update : ℕ → ℕ → List ℕ
unfolding build_frame
build_window_update stream_id increment =
    build_frame window_update 0 stream_id (store_u32 (low_31 increment))

unfoldable pub build_goaway : ℕ → ErrorCode → List ℕ → List ℕ
unfolding build_frame error_number
build_goaway last_stream_id ec debug_data =
    build_frame goaway 0 0
      (store_u32 (low_31 last_stream_id) ++ (store_u32 (error_number ec) ++ debug_data))

unfoldable pub build_rst_stream : ℕ → ErrorCode → List ℕ
unfolding build_frame error_number
build_rst_stream stream_id ec = build_frame rst_stream 0 stream_id (store_u32 (error_number ec))

-- `opaque_data` is an array of eight bytes.
unfoldable pub build_ping : List ℕ → Bool → List ℕ
unfolding build_frame
build_ping opaque_data ack = build_frame ping (if ack then Flag.ack else 0) 0 (take 8 opaque_data)

unfoldable pub build_push_promise : ℕ → ℕ → List ℕ → List ℕ
unfolding build_frame
build_push_promise stream_id promised_stream_id header_block =
    build_frame push_promise Flag.end_headers stream_id
      (store_u32 (low_31 promised_stream_id) ++ header_block)

unfoldable pub load_setting : List ℕ → SettingEntry
unfolding setting_id_of
load_setting p = record {
  id = setting_id_of (at p 0 * 2 ^ 8 + at p 1);
  value = load_u32 (at p 2) (at p 3) (at p 4) (at p 5);
}

-- The loop of `parse_settings`; the first argument counts the entries that are left.
unfoldable pub parse_entries : ℕ → List ℕ → List SettingEntry
unfolding load_setting
parse_entries zero p = []
parse_entries (suc n) p = load_setting p ∷ parse_entries n (drop settings_param_size p)

unfoldable pub parse_settings : List ℕ → List SettingEntry
unfolding parse_entries
parse_settings payload =
    if length payload % settings_param_size == 0
    then parse_entries (length payload / settings_param_size) payload
    else []

unfoldable pub parse_window_update : List ℕ → ℕ
parse_window_update p =
    if ltb (length p) 4 then 0 else low_31 (load_u32 (at p 0) (at p 1) (at p 2) (at p 3))

-- `struct push_promise_data`
pub record PushPromiseData : Type 0 where
  pub promised_stream_id : ℕ
  pub header_block : List ℕ

unfoldable pub parse_push_promise : List ℕ → PushPromiseData
parse_push_promise p =
    if ltb (length p) 4 then record { promised_stream_id = 0; header_block = [] } else record {
      promised_stream_id = low_31 (load_u32 (at p 0) (at p 1) (at p 2) (at p 3));
      header_block = if ltb 4 (length p) then drop 4 p else [];
    }

-- `struct goaway_data`
pub record GoawayData : Type 0 where
  pub last_stream_id : ℕ
  pub ec : ErrorCode
  pub debug_data : List ℕ

unfoldable pub parse_goaway : List ℕ → GoawayData
unfolding error_code_of
parse_goaway p =
    if ltb (length p) 8
    then record { last_stream_id = 0; ec = no_err; debug_data = [] }
    else record {
      last_stream_id = low_31 (load_u32 (at p 0) (at p 1) (at p 2) (at p 3));
      ec = error_code_of (load_u32 (at p 4) (at p 5) (at p 6) (at p 7));
      debug_data = if ltb 8 (length p) then drop 8 p else [];
    }
