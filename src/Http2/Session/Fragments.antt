-- ===== src/Http2/Session/Fragments.antt =====
-- A header block that src/http/http2_session.cpp cuts into a HEADERS frame and CONTINUATION frames,
-- and puts together again.
pub mod Gathering
pub mod Reassembly
use async_net.Base.{
  ℕ, zero, suc, ◌+◌, ◌-◌, ◌<◌, ◌≤◌, List, [], ◌∷◌, ◌++◌, Bool, true, false, not, none, some, ◌≡◌,
  refl, ap, ◌∙◌, sym, arith,
}
use async_net.Base.{
  bit_or, is_empty, if◌then◌else◌, leb, length, take, drop, Bool-cases, inl, inr, append_assoc,
  append-nil, take-append-drop, length-drop, length-take,
}
use async_net.Http2.Frame.{Frame, FrameHeader, build_frame}
use async_net.Http2.Frame.Code.{FrameType, headers, continuation}
use async_net.Http2.Frame.Flag
use async_net.Http2.Session.State.{Session, Stream, Handlers, find_stream, put_stream}
use async_net.Http2.Session.Frames.{continuation_frames, block_frames}
use async_net.Http2.Session.Feed.{process_frame}

-- A frame as its reader delivers it.
abbrev pub made : FrameType → ℕ → ℕ → List ℕ → Frame
made type flags sid payload = record {
  hdr = record { length = length payload; type = type; flags = flags; stream_id = sid };
  payload = payload;
}

-- The bytes of a list of frames.
unfoldable pub wires : List Frame → List ℕ
wires [] = []
wires (f ∷ fs) = build_frame f.hdr.type f.hdr.flags f.hdr.stream_id f.payload ++ wires fs

-- The CONTINUATION frames for what is left of a block.
unfoldable pub continuations : ℕ → ℕ → ℕ → List ℕ → List Frame
continuations zero max_size sid rest = []
continuations (suc fuel) max_size sid [] = []
continuations (suc fuel) max_size sid (b ∷ bs) =
    let behind = drop max_size (b ∷ bs) in
    made continuation (if is_empty behind then Flag.end_headers else 0) sid (take max_size (b ∷ bs))
    ∷ continuations fuel max_size sid behind

-- The frames of a block.
unfoldable pub fragments : ℕ → ℕ → ℕ → List ℕ → List Frame
fragments max_size sid flags block =
    if leb (length block) max_size
    then made headers (bit_or flags Flag.end_headers) sid block ∷ []
    else made headers flags sid (take max_size block)
      ∷ continuations (length block) max_size sid (drop max_size block)

wires-continuations :
    (fuel max_size sid : ℕ) (rest : List ℕ)
    → continuation_frames fuel max_size sid rest ≡ wires (continuations fuel max_size sid rest)
unfolding continuation_frames continuations wires
wires-continuations zero max_size sid rest = refl
wires-continuations (suc fuel) max_size sid [] = refl
wires-continuations (suc fuel) max_size sid (b ∷ bs) =
    ap
      (λ w.
        build_frame continuation (if is_empty (drop max_size (b ∷ bs)) then Flag.end_headers else 0)
          sid (take max_size (b ∷ bs))
        ++ w)
      (wires-continuations fuel max_size sid (drop max_size (b ∷ bs)))

-- What `build_headers_frame` writes are the bytes of these frames.
block_frames-wires :
    (max_size sid flags : ℕ) (block : List ℕ)
    → block_frames max_size sid flags block ≡ wires (fragments max_size sid flags block)
unfolding block_frames fragments wires
block_frames-wires max_size sid flags block = elim (Bool-cases (leb (length block) max_size)) [
  | inl fits ↦ rw fits (sym (append-nil _))
  | inr long ↦ rw long (
      ap (λ w. build_frame headers flags sid (take max_size block) ++ w)
        (wires-continuations (length block) max_size sid (drop max_size block)))
]

unfoldable pub process_all : Handlers → List Frame → Session → Session
process_all h [] s = s
process_all h (f ∷ fs) s = process_all h fs (process_frame h f s)
