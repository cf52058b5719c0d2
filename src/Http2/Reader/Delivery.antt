-- ===== src/Http2/Reader/Delivery.antt =====
-- What `frame_reader` delivers from the bytes that `build_frame` wrote.
use async_net.Base.{ℕ, zero, suc, ◌+◌, ◌%◌, ◌^◌, ◌≤◌, ◌<◌, ◌≡◌, refl, ap, ◌∙◌, arith}
use async_net.Base.{List, [], ◌∷◌, ◌++◌, length, take, copy_at, overwrite, Bool, true}
use async_net.Base.{take-append_eq, drop-append_eq, length-append}
use async_net.Http2.Frame.{Frame, FrameHeader, build_frame, write_to, read_from}
use async_net.Http2.Frame.Code.{FrameType}
use async_net.Http2.Frame.Enums.{IsFrameType}
use async_net.Http2.Frame.RoundTrip.{read_from-write_to}
use async_net.Http2.Reader.{Reader, parse_header, take_header, take_payload, feed_loop, feed}
use async_net.Http2.Reader.{has_frame, take_frame}
use async_net.Http2.Reader.Rounds.{room, advance, feed_loop_stop, feed_loop_step}
use async_net.Http2.Reader.Inv.{IsValid}

overwrite_whole : (b xs : List ℕ) → length xs ≡ length b → overwrite b xs ≡ xs
overwrite_whole [] [] h = refl
overwrite_whole [] (x ∷ xs) h = absurd (omega arith)
overwrite_whole (z ∷ b) [] h = absurd (omega arith)
overwrite_whole (z ∷ b) (x ∷ xs) h = ap (λ t. x ∷ t) (overwrite_whole b xs (omega arith))

-- The reader once it has the header `w` and `p` of the payload.
abbrev holding : Reader → List ℕ → List ℕ → Reader
holding r w p = record r {
  header_buf = w;
  header_buf_len = 9;
  current_header = read_from w;
  current_length = (read_from w).length;
  payload_buf = p;
}

copy_whole :
    (b w rest : List ℕ) (i : ℕ)
    → length b ≡ 9
    → length w ≡ 9
    → i ≡ 0
    → copy_at b i (take 9 (w ++ rest)) ≡ w
copy_whole b w rest zero hb hw e =
    ap (overwrite b) (take-append_eq w rest 9 (omega arith)) ∙ overwrite_whole b w (omega arith)
copy_whole b w rest (suc i) hb hw e = absurd (omega arith)

header_round :
    (r : Reader) (w rest : List ℕ)
    → IsValid r
    → r.header_buf_len ≡ 0
    → length w ≡ 9
    → advance r 9 (w ++ rest) ≡ holding r w []
unfolding advance parse_header take_header
header_round r w rest v e hw =
    ground (arith, copy_whole r.header_buf w rest r.header_buf_len v.header_size hw e)

-- Once the reader holds the whole payload it takes nothing more.
holding_stop :
    (f : ℕ) (r : Reader) (w p rest : List ℕ) (c : ℕ)
    → (read_from w).length ≡ length p
    → feed_loop f (holding r w p) rest c ≡ (holding r w p, c)
unfolding room
holding_stop f r w p rest c e = feed_loop_stop f (holding r w p) rest c (ground arith)

payload_round :
    (r : Reader) (w p rest : List ℕ)
    → length p < 2 ^ 24
    → (read_from w).length ≡ length p
    → advance (holding r w []) (length p) (p ++ rest) ≡ holding r w p
unfolding advance parse_header take_payload
payload_round r w p rest h e = ground (arith, take-append_eq p rest (length p) refl)

payload_rounds :
    (f : ℕ) (r : Reader) (w p rest : List ℕ) (c : ℕ)
    → length p + length rest ≤ f
    → length p < 2 ^ 24
    → (read_from w).length ≡ length p
    → feed_loop f (holding r w []) (p ++ rest) c ≡ (holding r w p, c + length p)
payload_rounds f r w [] rest c hf hp e = ground (arith, holding_stop f r w [] rest c e)
payload_rounds zero r w (x ∷ p) rest c hf hp e = absurd (omega arith)
payload_rounds (suc f) r w (x ∷ p) rest c hf hp e =
    let n = length (x ∷ p) in
    let s = holding r w [] in
    let full : room s ≡ n = unfold room in ground arith in
    rw
      (
        feed_loop_step f s x (p ++ rest) c n (omega arith) (omega (arith, length-append p rest)),
        drop-append_eq (x ∷ p) rest n refl,
        payload_round r w (x ∷ p) rest hp e,
      )
      (holding_stop f r w (x ∷ p) rest (c + n) e)

-- A header of nine bytes and the payload that it announces: the reader consumes just these.
pub feed_frame :
    (r : Reader) (w p rest : List ℕ)
    → IsValid r
    → r.header_buf_len ≡ 0
    → length w ≡ 9
    → length p < 2 ^ 24
    → (read_from w).length ≡ length p
    → feed r (w ++ (p ++ rest)) ≡ (holding r w p, 9 + length p)
unfolding feed
feed_frame r [] p rest v e hw hp hl = absurd (omega arith)
feed_frame r (x ∷ w) p rest v e hw hp hl =
    let full : room r ≡ 9 = unfold room in ground arith in
    let total = length (w ++ (p ++ rest)) in
    rw
      (
        feed_loop_step total r x (w ++ (p ++ rest)) 0 9 (omega arith)
            (omega (arith, length-append w (p ++ rest))),
        drop-append_eq (x ∷ w) (p ++ rest) 9 (omega arith),
        header_round r (x ∷ w) (p ++ rest) v e hw,
      )
      (payload_rounds total r (x ∷ w) p rest (0 + 9)
        (omega (arith, length-append w (p ++ rest), length-append p rest)) hp hl)

-- What a caller sees of a `feed`: the bytes consumed, whether a frame is ready, and the frame.
abbrev pub outcome : Reader × ℕ → ℕ × Bool × Frame
outcome (s, n) = (n, has_frame s, (take_frame s).0)

-- A reader between frames, fed a frame that `build_frame` wrote and whatever follows it, consumes
-- exactly that frame and hands it over: type, flags and payload as they were built, the length of
-- the payload, and the stream id without its reserved bit. The payload is shorter than 2^24 bytes.
pub feed-build_frame :
    (r : Reader) (type : FrameType) (flags stream_id : ℕ) (payload rest : List ℕ)
    → IsValid r
    → r.header_buf_len ≡ 0
    → IsFrameType type
    → length payload < 2 ^ 24
    → outcome (feed r (build_frame type flags stream_id payload ++ rest)) ≡ (
      9 + length payload,
      true,
      record {
        hdr = record {
          length = length payload;
          type = type;
          flags = flags;
          stream_id = stream_id % 2 ^ 31;
        };
        payload = payload;
      },
    )
unfolding build_frame has_frame take_frame
feed-build_frame r type flags stream_id payload rest v e t h =
    let hdr : FrameHeader = record {
      length = length payload % 2 ^ 32;
      type = type;
      flags = flags;
      stream_id = stream_id;
    } in
    let back : read_from (write_to hdr)
        ≡ record hdr { length = length payload; stream_id = stream_id % 2 ^ 31 } =
      ground (arith, read_from-write_to hdr [] t) in
    rw (feed_frame r (write_to hdr) payload rest v e refl h (ground (arith, back)))
      (ground (arith, back))
