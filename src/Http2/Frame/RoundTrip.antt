-- ===== src/Http2/Frame/RoundTrip.antt =====
-- What the parsers of src/http/h2_frame.hpp read back from what the builders wrote.
use async_net.Base.{ℕ, ◌*◌, ◌/◌, ◌%◌, ◌^◌, ◌<◌, ◌≡◌, refl, ap₂, arith}
use async_net.Base.{List, [], ◌∷◌, ◌++◌, length, All, IsByte}
use async_net.Base.{store_u32, ltb, if◌then◌else◌}
use async_net.Http2.Frame.{FrameHeader, write_to, read_from}
use async_net.Http2.Frame.{
  SettingEntry, settings_payload, parse_entries, parse_settings, load_setting,
}
use async_net.Http2.Frame.{store_setting, parse_window_update}
use async_net.Http2.Frame.{parse_goaway, parse_push_promise, low_31}
use async_net.Http2.Frame.Code.{ErrorCode}
use async_net.Http2.Frame.Code.{error_number}
use async_net.Http2.Frame.Enums.{
  IsFrameType, IsErrorCode, IsSettingId, frame_type_of-frame_type_code,
}
use async_net.Http2.Frame.Enums.{frame_type_code-frame_type_of, error_code_of-error_number}
use async_net.Http2.Frame.Enums.{error_number-lt, setting_id_of-setting_number, setting_number-lt}

-- `read_from` gives back the header that `write_to` stored, whatever bytes follow: the length is
-- kept modulo 2^24 and the stream id without its reserved top bit.
pub read_from-write_to :
    (h : FrameHeader) (rest : List ℕ)
    → IsFrameType h.type
    → read_from (write_to h ++ rest)
      ≡ record h { length = h.length % 2 ^ 24; stream_id = h.stream_id % 2 ^ 31 }
unfolding read_from write_to
read_from-write_to h rest t = ground (arith, frame_type_of-frame_type_code h.type t)

-- `write_to` gives back nine bytes that `read_from` parsed, but for the reserved bit, the top bit of
-- the fifth byte from the left, which it clears.
write_to-read_from :
    (b0 b1 b2 b3 b4 b5 b6 b7 b8 : ℕ)
    → All IsByte (b0 ∷ b1 ∷ b2 ∷ b3 ∷ b4 ∷ b5 ∷ b6 ∷ b7 ∷ b8 ∷ [])
    → write_to (read_from (b0 ∷ b1 ∷ b2 ∷ b3 ∷ b4 ∷ b5 ∷ b6 ∷ b7 ∷ b8 ∷ []))
      ≡ b0 ∷ b1 ∷ b2 ∷ b3 ∷ b4 ∷ (b5 % 128) ∷ b6 ∷ b7 ∷ b8 ∷ []
unfolding read_from write_to
write_to-read_from b0 b1 b2 b3 b4 b5 b6 b7 b8 h = ground (arith, frame_type_code-frame_type_of b3)

pub length-settings_payload :
    (es : List SettingEntry) → length (settings_payload es) ≡ 6 * length es
unfolding settings_payload
length-settings_payload [] = refl
length-settings_payload (e ∷ es) = omega (arith, length-settings_payload es)

pub record IsSetting (e : SettingEntry) : Type 0 where
  pub known : IsSettingId e.id
  pub fits : e.value < 2 ^ 32

load_setting-store_setting :
    (e : SettingEntry) (rest : List ℕ) → IsSetting e → load_setting (store_setting e ++ rest) ≡ e
unfolding load_setting store_setting
load_setting-store_setting e rest s =
    ground (arith, setting_id_of-setting_number e.id s.known, setting_number-lt e.id s.known)

parse_entries-settings_payload :
    (es : List SettingEntry)
    → All IsSetting es
    → parse_entries (length es) (settings_payload es) ≡ es
unfolding parse_entries settings_payload
parse_entries-settings_payload [] h = refl
parse_entries-settings_payload (e ∷ es) h =
    ap₂ ◌∷◌ (load_setting-store_setting e (settings_payload es) h.0)
      (parse_entries-settings_payload es h.1)

-- `parse_settings` gives back the entries whose payload `build_settings_frame` wrote.
pub parse_settings-settings_payload :
    (es : List SettingEntry) → All IsSetting es → parse_settings (settings_payload es) ≡ es
unfolding parse_settings
parse_settings-settings_payload es h =
    let e : length (settings_payload es) / 6 ≡ length es =
      omega (arith, length-settings_payload es) in
    let m : length (settings_payload es) % 6 ≡ 0 = omega (arith, length-settings_payload es) in
    rw (m, e) (parse_entries-settings_payload es h)

pub parse_window_update_payload :
    (increment : ℕ) → parse_window_update (store_u32 (low_31 increment)) ≡ increment % 2 ^ 31
unfolding parse_window_update
parse_window_update_payload increment = ground arith

tail_or_nil : (xs : List ℕ) → (if ltb 0 (length xs) then xs else []) ≡ xs
tail_or_nil [] = refl
tail_or_nil (x ∷ xs) = ground arith

pub parse_goaway_payload :
    (last : ℕ) (ec : ErrorCode) (debug : List ℕ)
    → IsErrorCode ec
    → parse_goaway (store_u32 (low_31 last) ++ (store_u32 (error_number ec) ++ debug))
      ≡ record { last_stream_id = last % 2 ^ 31; ec = ec; debug_data = debug }
unfolding parse_goaway
parse_goaway_payload last ec debug h =
    ground (arith, error_number-lt ec h, error_code_of-error_number ec h, tail_or_nil debug)

pub parse_push_promise_payload :
    (promised : ℕ) (block : List ℕ)
    → parse_push_promise (store_u32 (low_31 promised) ++ block)
      ≡ record { promised_stream_id = promised % 2 ^ 31; header_block = block }
unfolding parse_push_promise
parse_push_promise_payload promised block = ground (arith, tail_or_nil block)
