-- ===== src/Http3/Reader/Delivery.antt =====
-- `frame_reader` of src/http/h3_frame.hpp on what `build_frame` wrote.
use async_net.Base.{
  ℕ, zero, suc, ◌+◌, ◌-◌, ◌^◌, ◌<◌, ◌≡◌, refl, ap, ◌∙◌, arith, min, List, [], ◌∷◌, ◌++◌,
}
use async_net.Base.{
  Bool, true, false, some, ◌==◌, length, length-append, take, drop, copy_at, append_assoc,
}
use async_net.Base.{none, length-copy_at, take-append_eq, drop-append_eq}
use async_net.Http3.Varint.{varint}
use async_net.Http3.Varint.RoundTrip.{decode_varint-varint}
use async_net.Http3.Frame.{Frame, build_frame}
use async_net.Http3.Reader.{Reader, read_type, read_length, read_payload, complete}
use async_net.Http3.Reader.{end_type, end_length, round_in, feed_loop, feed}
use async_net.Http3.Reader.{has_frame, take_frame}
use async_net.Http3.Reader.Integers.{behind_varint, feed_varint-varint}

-- A reader between frames.
pub record IsFresh (r : Reader) : Type 0 where
  pub between : r.state ≡ read_type
  pub pending : r.varint_complete ≡ false
  pub no_bytes : r.varint_bytes_expected ≡ 0
  pub buffer : length r.varint_buf ≡ 8

-- The rounds of `feed` on a frame. The reader behind the type and behind the length:
behind_type : Reader → ℕ → Reader
behind_type r type = record (behind_varint r type) {
  current_type = type;
  type_val = 0;
  varint_complete = false;
  state = read_length;
}

behind_length : Reader → ℕ → Reader
behind_length r n = record (behind_varint r n) {
  current_length = n;
  length_val = 0;
  varint_complete = false;
  payload_buf = [];
  state = read_payload;
}

type_round :
    (r : Reader) (type : ℕ) (rest : List ℕ)
    → r.varint_bytes_expected ≡ 0
    → length r.varint_buf ≡ 8
    → type < 2 ^ 62
    → round_in read_type r (varint type ++ rest) ≡ some (behind_type r type, length (varint type))
unfolding round_in end_type behind_varint behind_type
type_round r type rest e size h =
    let (_, pos, _) = decode_varint-varint type rest h in
    let taken : (length (varint type) == 0) ≡ false = ground (arith, pos) in
    rw (feed_varint-varint r type rest r.type_val h e size) (rw taken refl)

length_round :
    (r : Reader) (n : ℕ) (rest : List ℕ)
    → r.varint_bytes_expected ≡ 0
    → length r.varint_buf ≡ 8
    → n < 2 ^ 62
    → round_in read_length r (varint n ++ rest) ≡ some (behind_length r n, length (varint n))
unfolding round_in end_length behind_varint behind_length
length_round r n rest e size h =
    let (_, pos, _) = decode_varint-varint n rest h in
    let taken : (length (varint n) == 0) ≡ false = ground (arith, pos) in
    rw (feed_varint-varint r n rest r.length_val h e size) (rw taken refl)

payload_round :
    (r : Reader) (payload rest : List ℕ)
    → r.payload_buf ≡ []
    → r.current_length ≡ length payload
    → round_in read_payload r (payload ++ rest)
      ≡ some (record r { payload_buf = payload; state = complete }, length payload)
unfolding round_in
payload_round r payload rest none_yet size =
    let long = length-append payload rest in
    let room : min (length payload - 0) (length (payload ++ rest)) ≡ length payload =
      omega (arith, long) in
    let cut : take (length payload) (payload ++ rest) ≡ payload =
      take-append_eq payload rest (length payload) refl in
    let whole : (length payload == length payload) ≡ true = ground arith in
    rw (none_yet, size) (rw room (rw cut (rw whole refl)))

feed_loop_step :
    (fuel : ℕ) (r r' : Reader) (input : List ℕ) (consumed n : ℕ)
    → 0 < length input
    → round_in r.state r input ≡ some (r', n)
    → feed_loop (suc fuel) r input consumed ≡ feed_loop fuel r' (drop n input) (consumed + n)
unfolding feed_loop
feed_loop_step fuel r r' [] consumed n h e = absurd (omega arith)
feed_loop_step fuel r r' (b ∷ bs) consumed n h e = rw (e, feed_loop) refl

feed_loop_complete :
    (fuel : ℕ) (r : Reader) (input : List ℕ) (consumed : ℕ)
    → round_in r.state r input ≡ none
    → feed_loop fuel r input consumed ≡ (r, consumed)
unfolding feed_loop
feed_loop_complete zero r input consumed e = refl
feed_loop_complete (suc fuel) r [] consumed e = refl
feed_loop_complete (suc fuel) r (b ∷ bs) consumed e = rw (e, feed_loop) refl

round_complete : (r : Reader) (input : List ℕ) → round_in complete r input ≡ none
unfolding round_in
round_complete r input = refl

length-copy_varint : (b : List ℕ) (v : ℕ) → length (copy_at b 0 (varint v)) ≡ length b
length-copy_varint b v = length-copy_at b 0 (varint v)

-- The reader with a frame.
with_frame : Reader → ℕ → List ℕ → Reader
with_frame r type payload = record (behind_length (behind_type r type) (length payload)) {
  payload_buf = payload;
  state = complete;
}

feed_frame :
    (r : Reader) (type : ℕ) (payload rest : List ℕ)
    → IsFresh r
    → type < 2 ^ 62
    → 0 < length payload + length rest
    → length payload < 2 ^ 62
    → feed r (varint type ++ (varint (length payload) ++ (payload ++ rest))) ≡ (
      with_frame r type payload,
      0 + length (varint type) + length (varint (length payload)) + length payload,
    )
unfolding feed with_frame behind_type behind_length behind_varint
feed_frame r type payload rest v ht some_payload hp =
    let n = length payload in
    let behind = payload ++ rest in
    let later = varint n ++ behind in
    let (_, one_type, _) = decode_varint-varint type later ht in
    let (_, one_length, _) = decode_varint-varint n behind hp in
    let long = length-append (varint type) later in
    let long' = length-append (varint n) behind in
    let long'' = length-append payload rest in
    let fuel = length (varint type ++ later) - 2 in
    let enough : length (varint type ++ later) + 1 ≡ suc (suc (suc fuel)) =
      omega (arith, long, long', long'', one_type, one_length) in
    let r1 = behind_type r type in
    let r2 = behind_length r1 n in
    let first = type_round r type later v.no_bytes v.buffer ht in
    let first' : round_in r.state r (varint type ++ later) ≡ some (r1, length (varint type)) =
      ap (λ s. round_in s r (varint type ++ later)) v.between ∙ first in
    let size1 : length r1.varint_buf ≡ 8 = length-copy_varint r.varint_buf type ∙ v.buffer in
    let second : round_in r1.state r1 later ≡ some (r2, length (varint n)) =
      length_round r1 n behind refl size1 hp in
    let third : round_in r2.state r2 behind ≡ some (with_frame r type payload, n) =
      payload_round r2 payload rest refl refl in
    ap (λ f. feed_loop f r (varint type ++ later) 0) enough
    ∙ feed_loop_step (suc (suc fuel)) r r1 (varint type ++ later) 0 (length (varint type))
        (omega (arith, long, one_type)) first'
    ∙ ap (λ t. feed_loop (suc (suc fuel)) r1 t (0 + length (varint type)))
        (drop-append_eq (varint type) later (length (varint type)) refl)
    ∙ feed_loop_step (suc fuel) r1 r2 later (0 + length (varint type)) (length (varint n))
        (omega (arith, long', one_length)) second
    ∙ ap (λ t. feed_loop (suc fuel) r2 t (0 + length (varint type) + length (varint n)))
        (drop-append_eq (varint n) behind (length (varint n)) refl)
    ∙ feed_loop_step fuel r2 (with_frame r type payload) behind
        (0 + length (varint type) + length (varint n)) n (omega (arith, long'')) third
    ∙ feed_loop_complete fuel (with_frame r type payload) (drop n behind)
        (0 + length (varint type) + length (varint n) + n)
        (round_complete (with_frame r type payload) (drop n behind))

-- What a caller sees of a `feed`: the bytes consumed, whether a frame is ready, and the frame.
abbrev pub outcome : Reader × ℕ → ℕ × Bool × Frame
outcome (s, n) = (n, has_frame s, (take_frame s).0)

build_frame_split :
    (type : ℕ) (payload rest : List ℕ)
    → build_frame type payload ++ rest
      ≡ varint type ++ (varint (length payload) ++ (payload ++ rest))
unfolding build_frame
build_frame_split type payload rest =
    append_assoc (varint type) (varint (length payload) ++ payload) rest
    ∙ ap (λ t. varint type ++ t) (append_assoc (varint (length payload)) payload rest)

length-build_frame :
    (type : ℕ) (payload : List ℕ)
    → 0 + length (varint type) + length (varint (length payload)) + length payload
      ≡ length (build_frame type payload)
unfolding build_frame
length-build_frame type payload = omega (
  arith,
  length-append (varint type) (varint (length payload) ++ payload),
  length-append (varint (length payload)) payload,
)

-- A reader between frames, fed a frame that `build_frame` wrote and what follows it, consumes exactly
-- that frame and hands it over, and is between frames again when the frame is taken. The type and the
-- length of the payload are below 2^62, and the payload or what follows has a byte.
pub feed-build_frame_lem :
    (r : Reader) (type : ℕ) (payload rest : List ℕ)
    → IsFresh r
    → type < 2 ^ 62
    → 0 < length payload + length rest
    → length payload < 2 ^ 62
    → (outcome (feed r (build_frame type payload ++ rest))
        ≡ (length (build_frame type payload), true, record { type = type; payload = payload }))
      × IsFresh (take_frame (feed r (build_frame type payload ++ rest)).0).1
unfolding has_frame take_frame with_frame behind_type behind_length behind_varint
feed-build_frame_lem r type payload rest v ht some_byte hp =
    let done =
      ap (feed r) (build_frame_split type payload rest)
      ∙ feed_frame r type payload rest v ht some_byte hp in
    rw done (
      ap (λ n. (n, true, record { type = type; payload = payload }))
          (length-build_frame type payload),
      record {
        between = refl;
        pending = refl;
        no_bytes = refl;
        buffer =
            length-copy_varint (copy_at r.varint_buf 0 (varint type)) (length payload)
            ∙ length-copy_varint r.varint_buf type
            ∙ v.buffer;
      },
    )

feed_loop-nil :
    (fuel : ℕ) (r : Reader) (consumed : ℕ) → feed_loop fuel r [] consumed ≡ (r, consumed)
unfolding feed_loop
feed_loop-nil zero r consumed = refl
feed_loop-nil (suc fuel) r consumed = refl

feed_header :
    (r : Reader) (type : ℕ)
    → IsFresh r
    → type < 2 ^ 62
    → feed r (varint type ++ (varint 0 ++ []))
      ≡ (behind_length (behind_type r type) 0, 0 + length (varint type) + length (varint 0))
unfolding feed behind_type behind_length behind_varint
feed_header r type v ht =
    let later = varint 0 ++ [] in
    let (_, one_type, _) = decode_varint-varint type later ht in
    let (_, one_length, _) = decode_varint-varint 0 [] (omega arith) in
    let long = length-append (varint type) later in
    let long' = length-append (varint 0) [] in
    let fuel = length (varint type ++ later) - 1 in
    let enough : length (varint type ++ later) + 1 ≡ suc (suc fuel) =
      omega (arith, long, one_type) in
    let r1 = behind_type r type in
    let first : round_in r.state r (varint type ++ later) ≡ some (r1, length (varint type)) =
      ap (λ s. round_in s r (varint type ++ later)) v.between
      ∙ type_round r type later v.no_bytes v.buffer ht in
    let size1 : length r1.varint_buf ≡ 8 = length-copy_varint r.varint_buf type ∙ v.buffer in
    ap (λ f. feed_loop f r (varint type ++ later) 0) enough
    ∙ feed_loop_step (suc fuel) r r1 (varint type ++ later) 0 (length (varint type))
        (omega (arith, long, one_type)) first
    ∙ ap (λ t. feed_loop (suc fuel) r1 t (0 + length (varint type)))
        (drop-append_eq (varint type) later (length (varint type)) refl)
    ∙ feed_loop_step fuel r1 (behind_length r1 0) later (0 + length (varint type))
        (length (varint 0)) (omega (arith, long', one_length))
        (length_round r1 0 [] refl size1 (omega arith))
    ∙ ap (λ t. feed_loop fuel (behind_length r1 0) t (0 + length (varint type) + length (varint 0)))
        (drop-append_eq (varint 0) [] (length (varint 0)) refl)
    ∙ feed_loop-nil fuel (behind_length r1 0) (0 + length (varint type) + length (varint 0))

-- A frame with no payload is consumed, but not handed over before another byte comes: the round that
-- would complete it is not run at the end of the data.
pub feed-build_frame_empty :
    (r : Reader) (type : ℕ)
    → IsFresh r
    → type < 2 ^ 62
    → ((feed r (build_frame type [])).1 ≡ length (build_frame type []))
      × (has_frame (feed r (build_frame type [])).0 ≡ false)
unfolding has_frame behind_type behind_length build_frame
feed-build_frame_empty r type v ht =
    let done = feed_header r type v ht in
    let size = length-append (varint type) (varint 0 ++ []) in
    let size' = length-append (varint 0) [] in
    (ap (λ s. s.1) done ∙ omega (arith, size, size'), ap (λ s. has_frame s.0) done)
