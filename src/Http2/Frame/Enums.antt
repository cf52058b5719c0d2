-- ===== src/Http2/Frame/Enums.antt =====
-- The casts between the enumerations of src/http/h2_frame.hpp and their numbers lose nothing.
use async_net.Base.{ℕ, ◌<◌, ◌^◌, ◌≡◌, arith}
use async_net.Http2.Frame.Code.{FrameType, data_frame, frame_type_code, frame_type_of}
use async_net.Http2.Frame.Code.{ErrorCode, no_err, error_number, error_code_of}
use async_net.Http2.Frame.Code.{SettingId, header_table_size, setting_number, setting_id_of}

-- A value that the type can hold: an `other` is a number of the underlying type with no enumerator.
abbrev pub IsFrameType : FrameType → Type 0
IsFrameType (FrameType.other n) = (9 < n) × (n < 2 ^ 8)
IsFrameType _ = Unit

abbrev pub IsErrorCode : ErrorCode → Type 0
IsErrorCode (ErrorCode.other n) = (0xD < n) × (n < 2 ^ 32)
IsErrorCode _ = Unit

-- The number 0 and the numbers above 6 have no enumerator.
abbrev pub IsSettingId : SettingId → Type 0
IsSettingId (SettingId.other n) = (setting_id_of n ≡ SettingId.other n) × (n < 2 ^ 16)
IsSettingId _ = Unit

pub frame_type_code-frame_type_of : (b : ℕ) → frame_type_code (frame_type_of b) ≡ b
unfolding frame_type_code frame_type_of
frame_type_code-frame_type_of b = ground arith

pub frame_type_of-frame_type_code :
    (t : FrameType) → IsFrameType t → frame_type_of (frame_type_code t) ≡ t
unfolding frame_type_code frame_type_of
frame_type_of-frame_type_code data_frame h = ground arith
frame_type_of-frame_type_code _ h = ground arith

pub frame_type_code-lt : (t : FrameType) → IsFrameType t → frame_type_code t < 256
unfolding frame_type_code
frame_type_code-lt data_frame h = omega arith
frame_type_code-lt _ h = omega arith

pub error_code_of-error_number :
    (e : ErrorCode) → IsErrorCode e → error_code_of (error_number e) ≡ e
unfolding error_number error_code_of
error_code_of-error_number no_err h = ground arith
error_code_of-error_number _ h = ground arith

pub error_number-lt : (e : ErrorCode) → IsErrorCode e → error_number e < 2 ^ 32
unfolding error_number
error_number-lt no_err h = omega arith
error_number-lt _ h = omega arith

pub setting_id_of-setting_number :
    (s : SettingId) → IsSettingId s → setting_id_of (setting_number s) ≡ s
unfolding setting_number setting_id_of
setting_id_of-setting_number header_table_size h = ground arith
setting_id_of-setting_number _ h = ground arith

pub setting_number-lt : (s : SettingId) → IsSettingId s → setting_number s < 2 ^ 16
unfolding setting_number
setting_number-lt header_table_size h = omega arith
setting_number-lt _ h = omega arith
