-- ===== src/Http2/Frame/Flag.antt =====
-- `namespace flag` of src/http/h2_frame.hpp.
use async_net.Base.{ℕ}

abbrev pub clear : ℕ
clear = 0x00

abbrev pub ack : ℕ
ack = 0x01

abbrev pub end_stream : ℕ
end_stream = 0x01

abbrev pub end_headers : ℕ
end_headers = 0x04

abbrev pub padded : ℕ
padded = 0x08

abbrev pub priority : ℕ
priority = 0x20
