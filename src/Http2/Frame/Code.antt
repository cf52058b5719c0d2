-- ===== src/Http2/Frame/Code.antt =====
-- The enumerations of src/http/h2_frame.hpp. A C++ `enum class` holds any value of its underlying
-- type, and the parsers cast what they read: `other n` is a value with no enumerator.
use async_net.Base.{ℕ, ◌==◌, if◌then◌else◌}

-- `enum class frame_type : uint8_t`
pub data FrameType : Type 0 where
  data_frame headers priority rst_stream settings push_promise ping goaway : FrameType
  window_update continuation : FrameType
  other : ℕ → FrameType

unfoldable pub frame_type_code : FrameType → ℕ
frame_type_code data_frame = 0x0
frame_type_code headers = 0x1
frame_type_code priority = 0x2
frame_type_code rst_stream = 0x3
frame_type_code settings = 0x4
frame_type_code push_promise = 0x5
frame_type_code ping = 0x6
frame_type_code goaway = 0x7
frame_type_code window_update = 0x8
frame_type_code continuation = 0x9
frame_type_code (FrameType.other n) = n

-- `static_cast<frame_type>(b)`
unfoldable pub frame_type_of : ℕ → FrameType
frame_type_of b =
    if b == 0x0
    then data_frame
    else if b == 0x1
    then headers
    else if b == 0x2
    then priority
    else if b == 0x3
    then rst_stream
    else if b == 0x4
    then settings
    else if b == 0x5
    then push_promise
    else if b == 0x6
    then ping
    else if b == 0x7
    then goaway
    else if b == 0x8
    then window_update
    else if b == 0x9
    then continuation
    else FrameType.other b

-- `enum class error_code : uint32_t`
pub data ErrorCode : Type 0 where
  no_err protocol_error internal_error flow_control_error settings_timeout : ErrorCode
  stream_closed frame_size_error refused_stream cancel compression_error : ErrorCode
  connect_error enhance_your_calm inadequate_security http_1_1_required : ErrorCode
  other : ℕ → ErrorCode

unfoldable pub error_number : ErrorCode → ℕ
error_number no_err = 0x0
error_number protocol_error = 0x1
error_number internal_error = 0x2
error_number flow_control_error = 0x3
error_number settings_timeout = 0x4
error_number stream_closed = 0x5
error_number frame_size_error = 0x6
error_number refused_stream = 0x7
error_number cancel = 0x8
error_number compression_error = 0x9
error_number connect_error = 0xA
error_number enhance_your_calm = 0xB
error_number inadequate_security = 0xC
error_number http_1_1_required = 0xD
error_number (ErrorCode.other n) = n

-- `static_cast<error_code>(n)`
unfoldable pub error_code_of : ℕ → ErrorCode
error_code_of n =
    if n == 0x0
    then no_err
    else if n == 0x1
    then protocol_error
    else if n == 0x2
    then internal_error
    else if n == 0x3
    then flow_control_error
    else if n == 0x4
    then settings_timeout
    else if n == 0x5
    then stream_closed
    else if n == 0x6
    then frame_size_error
    else if n == 0x7
    then refused_stream
    else if n == 0x8
    then cancel
    else if n == 0x9
    then compression_error
    else if n == 0xA
    then connect_error
    else if n == 0xB
    then enhance_your_calm
    else if n == 0xC
    then inadequate_security
    else if n == 0xD
    then http_1_1_required
    else ErrorCode.other n

-- `enum class setting_id : uint16_t`
pub data SettingId : Type 0 where
  header_table_size enable_push max_concurrent_streams initial_window_size : SettingId
  max_frame_size max_header_list_size : SettingId
  other : ℕ → SettingId

unfoldable pub setting_number : SettingId → ℕ
setting_number header_table_size = 0x1
setting_number enable_push = 0x2
setting_number max_concurrent_streams = 0x3
setting_number initial_window_size = 0x4
setting_number max_frame_size = 0x5
setting_number max_header_list_size = 0x6
setting_number (SettingId.other n) = n

-- `static_cast<setting_id>(n)`
unfoldable pub setting_id_of : ℕ → SettingId
setting_id_of n =
    if n == 0x1
    then header_table_size
    else if n == 0x2
    then enable_push
    else if n == 0x3
    then max_concurrent_streams
    else if n == 0x4
    then initial_window_size
    else if n == 0x5
    then max_frame_size
    else if n == 0x6
    then max_header_list_size
    else SettingId.other n
