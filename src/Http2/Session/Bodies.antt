-- ===== src/Http2/Session/Bodies.antt =====
-- A body that src/http/http2_session.cpp cuts into DATA frames, and puts together again.
use async_net.Base.{ℕ, zero, suc, List, [], ◌∷◌, ◌++◌, Bool, not, ◌&&◌, none, some, ◌≡◌, refl, ap}
use async_net.Base.{is_empty, if◌then◌else◌, take, drop}
use async_net.Http2.Frame.{Frame, build_frame}
use async_net.Http2.Frame.Code.{data_frame}
use async_net.Http2.Frame.Flag
use async_net.Http2.Session.State.{Session, Stream, find_stream}
use async_net.Http2.Session.Frames.{data_loop}
use async_net.Http2.Session.Fragments.{made, wires}

-- The DATA frames for what is left of a body.
unfoldable pub data_pieces : ℕ → ℕ → ℕ → Bool → List ℕ → List Frame
data_pieces zero max_size sid no_end_stream rest = []
data_pieces (suc fuel) max_size sid no_end_stream [] = []
data_pieces (suc fuel) max_size sid no_end_stream (b ∷ bs) =
    let behind = drop max_size (b ∷ bs) in
    made data_frame (if not no_end_stream && is_empty behind then Flag.end_stream else 0) sid
      (take max_size (b ∷ bs))
    ∷ data_pieces fuel max_size sid no_end_stream behind

-- The loop that cuts a body writes the bytes of these frames.
pub data_loop-wires :
    (fuel max_size sid : ℕ) (no_end_stream : Bool) (rest : List ℕ)
    → data_loop fuel max_size sid no_end_stream rest
      ≡ wires (data_pieces fuel max_size sid no_end_stream rest)
unfolding data_loop data_pieces wires
data_loop-wires zero max_size sid no_end_stream rest = refl
data_loop-wires (suc fuel) max_size sid no_end_stream [] = refl
data_loop-wires (suc fuel) max_size sid no_end_stream (b ∷ bs) =
    let behind = drop max_size (b ∷ bs) in
    let flags = if not no_end_stream && is_empty behind then Flag.end_stream else 0 in
    ap (λ w. build_frame data_frame flags sid (take max_size (b ∷ bs)) ++ w)
      (data_loop-wires fuel max_size sid no_end_stream behind)

-- The stream is there, with no callback for its data and with this body, and no header block is
-- being received.
abbrev pub HasBody : ℕ → List ℕ → Session → Type 0
HasBody sid body s =
    (ss : Stream) × (find_stream sid s.streams ≡ some ss)
    × (ss.data_cb ≡ none)
    × (ss.body ≡ body)
    × (s.continuation_stream ≡ 0)
