-- ===== src/Http2/Reader.antt =====
-- `class frame_reader` of src/http/h2_frame.hpp: the incremental parser of frames.
pub mod Rounds
pub mod Inv
pub mod Chunks
pub mod Delivery
pub mod Messages
use async_net.Base.{ℕ, zero, suc, ◌+◌, ◌-◌, ◌^◌, min, List, [], ◌∷◌, ◌++◌, Bool, true, false, ◌&&◌}
use async_net.Base.{Option, none, some, ltb, leb, ◌==◌, if◌then◌else◌, length, take, drop}
use async_net.Base.{replicate, copy_at}
use async_net.Http2.Frame.{FrameHeader, default_header, Frame, frame_header_size, read_from}

-- `SIZE_MAX`, which marks that the header is not parsed yet.
abbrev pub size_max : ℕ
size_max = 2 ^ 64 - 1

pub record Reader : Type 0 where
  pub header_buf : List ℕ
  pub header_buf_len : ℕ
  pub current_header : FrameHeader
  pub current_length : ℕ
  pub payload_buf : List ℕ

abbrev pub new_reader : Reader
new_reader = record {
  header_buf = replicate 9 0;
  header_buf_len = 0;
  current_header = default_header;
  current_length = size_max;
  payload_buf = [];
}

-- The end of the loop body of `feed`: a header that has just been completed is parsed.
unfoldable pub parse_header : Reader → Reader
parse_header r =
    if r.header_buf_len == frame_header_size && r.current_length == size_max
    then record r {
      current_header = read_from r.header_buf;
      current_length = (read_from r.header_buf).length;
      payload_buf = [];
    }
    else r

unfoldable pub take_header : Reader → ℕ → List ℕ → Reader
take_header r n input = record r {
  header_buf = copy_at r.header_buf r.header_buf_len (take n input);
  header_buf_len = r.header_buf_len + n;
}

unfoldable pub take_payload : Reader → ℕ → List ℕ → Reader
take_payload r n input = record r { payload_buf = r.payload_buf ++ take n input }

-- One round of the loop of `feed` on the bytes from `data + consumed` on: the new reader and how
-- many of them the round took; `none` is its `break`.
unfoldable pub feed_round : Reader → List ℕ → Option (Reader × ℕ)
unfolding parse_header take_header take_payload
feed_round r input =
    if ltb r.header_buf_len frame_header_size
    then (let n = min (frame_header_size - r.header_buf_len) (length input) in
        some (parse_header (take_header r n input), n))
    else if ltb (length r.payload_buf) r.current_length
    then (let n = min (r.current_length - length r.payload_buf) (length input) in
        some (parse_header (take_payload r n input), n))
    else none

-- The loop, on fuel; `input` is what is left of the data.
unfoldable pub feed_loop : ℕ → Reader → List ℕ → ℕ → Reader × ℕ
unfolding feed_round
feed_loop zero r input consumed = (r, consumed)
feed_loop (suc fuel) r [] consumed = (r, consumed)
feed_loop (suc fuel) r (b ∷ bs) consumed = elim (feed_round r (b ∷ bs)) [
  | none ↦ (r, consumed)
  | some (r', n) ↦ feed_loop fuel r' (drop n (b ∷ bs)) (consumed + n)
]

-- The reader after the call, and the number of bytes consumed. A round takes a byte at least.
unfoldable pub feed : Reader → List ℕ → Reader × ℕ
unfolding feed_loop
feed r input = feed_loop (length input) r input 0

unfoldable pub has_frame : Reader → Bool
has_frame r = r.header_buf_len == frame_header_size && leb r.current_length (length r.payload_buf)

unfoldable pub take_frame : Reader → Frame × Reader
take_frame r = (
  record { hdr = r.current_header; payload = r.payload_buf },
  record r { header_buf_len = 0; current_length = size_max; payload_buf = [] },
)
