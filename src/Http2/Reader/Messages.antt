-- ===== src/Http2/Reader/Messages.antt =====
-- A control frame of src/http/h2_frame.hpp, from its builder over `frame_reader` to its parser.
use async_net.Base.{ℕ, ◌+◌, ◌*◌, ◌%◌, ◌^◌, ◌<◌, ◌≡◌, refl, ap, ◌∙◌, arith, Bool, true, false}
use async_net.Base.{List, ◌++◌, length, All, store_u32}
use async_net.Http2.Frame.{
  Frame, build_frame, low_31, SettingEntry, settings_payload, build_settings_frame,
}
use async_net.Http2.Frame.{parse_settings, build_window_update, parse_window_update, build_goaway}
use async_net.Http2.Frame.{parse_goaway, build_push_promise}
use async_net.Http2.Frame.{parse_push_promise}
use async_net.Http2.Frame.Code.{FrameType, settings, window_update, goaway, push_promise}
use async_net.Http2.Frame.Code.{ErrorCode, error_number}
use async_net.Http2.Frame.Flag
use async_net.Http2.Frame.Enums.{IsErrorCode, IsFrameType}
use async_net.Http2.Frame.RoundTrip.{IsSetting, length-settings_payload}
use async_net.Http2.Frame.RoundTrip.{parse_settings-settings_payload, parse_window_update_payload}
use async_net.Http2.Frame.RoundTrip.{parse_goaway_payload, parse_push_promise_payload}
use async_net.Http2.Reader.{Reader, feed}
use async_net.Http2.Reader.Inv.{IsValid}
use async_net.Http2.Reader.Delivery.{outcome, feed-build_frame}

-- The outcome of a `feed` with the payload parsed: the bytes consumed, whether a frame is ready,
-- its type, its stream and what its payload says.
abbrev parsed {ℓ} : {A : Type ℓ} → (List ℕ → A) → ℕ × Bool × Frame → ℕ × Bool × FrameType × ℕ × A
parsed parse (n, ready, f) = (n, ready, f.hdr.type, f.hdr.stream_id, parse f.payload)

abbrev pub message {ℓ} : {A : Type ℓ} → (List ℕ → A) → Reader × ℕ → ℕ × Bool × FrameType × ℕ × A
message parse s = parsed parse (outcome s)

message-build_frame {ℓ} :
    {A : Type ℓ} (parse : List ℕ → A) (a : A) (r : Reader) (type : FrameType) (flags stream_id : ℕ)
    (payload rest : List ℕ) (n : ℕ)
    → IsValid r
    → r.header_buf_len ≡ 0
    → IsFrameType type
    → length payload < 2 ^ 24
    → parse payload ≡ a
    → 9 + length payload ≡ n
    → message parse (feed r (build_frame type flags stream_id payload ++ rest))
      ≡ (n, true, type, stream_id % 2 ^ 31, a)
message-build_frame parse a r type flags stream_id payload rest n v e t h p size =
    ap (parsed parse) (feed-build_frame r type flags stream_id payload rest v e t h)
    ∙ ap (λ b. (9 + length payload, true, type, stream_id % 2 ^ 31, b)) p
    ∙ ap (λ m. (m, true, type, stream_id % 2 ^ 31, a)) size

-- A SETTINGS frame that is no acknowledgement is received on stream 0 with the settings that it was
-- built from, by a valid reader between frames and whatever follows the frame. The identifiers are
-- known, the values are `uint32_t`, and the payload is shorter than 2^24 bytes.
pub feed-build_settings_frame :
    (r : Reader) (es : List SettingEntry) (rest : List ℕ)
    → IsValid r
    → r.header_buf_len ≡ 0
    → All IsSetting es
    → 6 * length es < 2 ^ 24
    → message parse_settings (feed r (build_settings_frame es false ++ rest))
      ≡ (9 + 6 * length es, true, settings, 0, es)
unfolding build_settings_frame
feed-build_settings_frame r es rest v e s h =
    (message-build_frame parse_settings es r settings Flag.clear 0 (settings_payload es) rest _ v e
      tt (omega (arith, length-settings_payload es)) (parse_settings-settings_payload es s)
      (omega (arith, length-settings_payload es)))

-- A WINDOW_UPDATE frame is received with its stream and its increment, each without its top bit.
feed-build_window_update :
    (r : Reader) (stream_id increment : ℕ) (rest : List ℕ)
    → IsValid r
    → r.header_buf_len ≡ 0
    → message parse_window_update (feed r (build_window_update stream_id increment ++ rest))
      ≡ (13, true, window_update, stream_id % 2 ^ 31, increment % 2 ^ 31)
unfolding build_window_update
feed-build_window_update r stream_id increment rest v e =
    message-build_frame parse_window_update (increment % 2 ^ 31) r window_update 0 stream_id
      (store_u32 (low_31 increment)) rest _ v e tt (omega arith)
      (parse_window_update_payload increment) refl

-- A GOAWAY frame is received on stream 0 with the error and the debug data that it was built from,
-- and the last stream id without its top bit.
feed-build_goaway :
    (r : Reader) (last_stream_id : ℕ) (ec : ErrorCode) (debug_data rest : List ℕ)
    → IsValid r
    → r.header_buf_len ≡ 0
    → IsErrorCode ec
    → 8 + length debug_data < 2 ^ 24
    → message parse_goaway (feed r (build_goaway last_stream_id ec debug_data ++ rest)) ≡ (
      17 + length debug_data,
      true,
      goaway,
      0,
      record { last_stream_id = last_stream_id % 2 ^ 31; ec = ec; debug_data = debug_data },
    )
unfolding build_goaway
feed-build_goaway r last_stream_id ec debug_data rest v e k h =
    message-build_frame parse_goaway _ r goaway 0 0
      (store_u32 (low_31 last_stream_id) ++ (store_u32 (error_number ec) ++ debug_data)) rest _ v e
      tt (omega arith) (parse_goaway_payload last_stream_id ec debug_data k) (omega arith)

-- A PUSH_PROMISE frame is received with its stream, the promised stream, each without its top bit,
-- and the header block that it was built from.
feed-build_push_promise :
    (r : Reader) (stream_id promised_stream_id : ℕ) (header_block rest : List ℕ)
    → IsValid r
    → r.header_buf_len ≡ 0
    → 4 + length header_block < 2 ^ 24
    → message parse_push_promise
        (feed r (build_push_promise stream_id promised_stream_id header_block ++ rest))
      ≡ (
        13 + length header_block,
        true,
        push_promise,
        stream_id % 2 ^ 31,
        record { promised_stream_id = promised_stream_id % 2 ^ 31; header_block = header_block },
      )
unfolding build_push_promise
feed-build_push_promise r stream_id promised_stream_id header_block rest v e h =
    message-build_frame parse_push_promise _ r push_promise Flag.end_headers stream_id
      (store_u32 (low_31 promised_stream_id) ++ header_block) rest _ v e tt (omega arith)
      (parse_push_promise_payload promised_stream_id header_block) (omega arith)
