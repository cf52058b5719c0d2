-- ===== src/Http2/Session/Credit.antt =====
-- The send windows of the streams under the SETTINGS frames of a peer, in
-- src/http/http2_session.cpp.
use async_net.Base.{
  ℕ, List, [], ◌∷◌, Bool, true, false, not, ◌||◌, Option, none, some, ap, ◌≡◌, refl, ◌∙◌, arith,
  ◌==◌, if◌then◌else◌, ltb, Bool-cases, inl, inr, length, bytes, ◌%◌,
}
use async_net.Base.{ℤ, pos, ◌+ℤ◌, ◌-ℤ◌, +ℤ_parts, -ℤ_parts, eq_of_parts}
use async_net.Http2.Frame.{Frame, has_flag, SettingEntry, parse_settings, settings_param_size}
use async_net.Http2.Frame.Flag
use async_net.Http2.Frame.Code.{
  protocol_error, frame_size_error, SettingId, header_table_size, enable_push,
  max_concurrent_streams, initial_window_size, max_frame_size, max_header_list_size,
}
use async_net.Http2.Session.State.{Session, Stream, Streams, find_stream, max_window_size, goaway}
use async_net.Http2.Session.Settings.{
  shift_windows, set_initial_window, apply_setting, apply_settings, handle_settings,
}

-- The stream is there, and its send window differs by `c` from the peer's initial window.
abbrev pub HasCredit : ℕ → ℤ → Session → Type 0
HasCredit sid c s =
    (ss : Stream) × (find_stream sid s.streams ≡ some ss)
    × (ss.send_window -ℤ pos s.peer_initial_window_size ≡ c)

shift : ℤ → Stream → Stream
shift delta ss = record ss { send_window = ss.send_window +ℤ delta }

shift_found : ℤ → Option Stream → Option Stream
shift_found delta none = none
shift_found delta (some ss) = some (shift delta ss)

if-shift_found :
    (delta : ℤ) (b : Bool) (x : Stream) (o : Option Stream)
    → (if b then some (shift delta x) else shift_found delta o)
      ≡ shift_found delta (if b then some x else o)
unfolding shift_found
if-shift_found delta true x o = refl
if-shift_found delta false x o = refl

find_stream-shift_windows :
    (sid : ℕ) (delta : ℤ) (m : Streams)
    → find_stream sid (shift_windows delta m) ≡ shift_found delta (find_stream sid m)
unfolding find_stream shift_windows shift_found shift
find_stream-shift_windows sid delta [] = refl
find_stream-shift_windows sid delta ((key, x) ∷ m) =
    ap (λ o. if key == sid then some (shift delta x) else o) (find_stream-shift_windows sid delta m)
    ∙ if-shift_found delta (key == sid) x (find_stream sid m)

shifted : (w : ℤ) (old new : ℕ) → w +ℤ (pos new -ℤ pos old) -ℤ pos new ≡ w -ℤ pos old
shifted w old new = eq_of_parts _ _ (
    omega (
      arith,
      +ℤ_parts w (pos new -ℤ pos old),
      -ℤ_parts (pos new) (pos old),
      -ℤ_parts (w +ℤ (pos new -ℤ pos old)) (pos new),
      -ℤ_parts w (pos old),
    ))

apply_setting-HasCredit :
    (sid : ℕ) (c : ℤ) (id : SettingId) (value : ℕ) (s : Session)
    → HasCredit sid c s
    → HasCredit sid c (apply_setting id value s).0
unfolding apply_setting goaway shift_found shift
apply_setting-HasCredit sid c header_table_size value s v = v
apply_setting-HasCredit sid c enable_push value s v = v
apply_setting-HasCredit sid c max_concurrent_streams value s v = v
apply_setting-HasCredit sid c initial_window_size value s (ss, found, e) =
    elim (Bool-cases (ltb max_window_size value)) [
      | inl large ↦ rw (large, apply_setting) (ss, found, e)
      | inr fits ↦
          let delta = pos value -ℤ pos s.peer_initial_window_size in
          let t : HasCredit sid c (set_initial_window value s) =
            unfold set_initial_window in
            (
              record ss { send_window = ss.send_window +ℤ delta },
              find_stream-shift_windows sid delta s.streams ∙ ap (shift_found delta) found,
              shifted ss.send_window s.peer_initial_window_size value ∙ e,
            ) in
          rw (fits, apply_setting) t
    ]
apply_setting-HasCredit sid c max_frame_size value s v =
    elim (Bool-cases (ltb value 16384 || ltb 16777215 value)) [
      | inl bad ↦ rw (bad, apply_setting) v
      | inr fits ↦ rw (fits, apply_setting) v
    ]
apply_setting-HasCredit sid c max_header_list_size value s v = v
apply_setting-HasCredit sid c (SettingId.other n) value s v = v

apply_settings-HasCredit :
    (sid : ℕ) (c : ℤ) (es : List SettingEntry) (s : Session)
    → HasCredit sid c s
    → HasCredit sid c (apply_settings es s)
unfolding apply_settings
apply_settings-HasCredit sid c [] s v = v
apply_settings-HasCredit sid c (e ∷ es) s v =
    let applied = apply_setting e.id e.value s in
    let w = apply_setting-HasCredit sid c e.id e.value s v in
    elim (Bool-cases applied.1) [
      | inl on ↦ rw (on, apply_settings) (apply_settings-HasCredit sid c es applied.0 w)
      | inr off ↦ rw (off, apply_settings) w
    ]

if-HasCredit :
    (sid : ℕ) (c : ℤ) (b : Bool) (s t : Session)
    → HasCredit sid c s
    → HasCredit sid c t
    → HasCredit sid c (if b then s else t)
if-HasCredit sid c true s t v w = v
if-HasCredit sid c false s t v w = w

-- A SETTINGS frame, whatever it says and whether it is accepted, moves the send window of every
-- stream by just what it moves the initial window: the difference of the two stays the same.
pub handle_settings-HasCredit :
    (sid : ℕ) (c : ℤ) (f : Frame) (s : Session)
    → HasCredit sid c s
    → HasCredit sid c (handle_settings f s)
unfolding handle_settings goaway
handle_settings-HasCredit sid c f s v =
    let whole = length f.payload % settings_param_size == 0 in
    let applied = apply_settings (parse_settings f.payload) s in
    let refused = if not whole then goaway s frame_size_error [] else applied in
    let misplaced = goaway s protocol_error (bytes "SETTINGS on non-zero stream") in
    if-HasCredit sid c (not (f.hdr.stream_id == 0)) misplaced
      (if has_flag f.hdr Flag.ack then s else refused) v
      (if-HasCredit sid c (has_flag f.hdr Flag.ack) s refused v (
        if-HasCredit sid c (not whole) (goaway s frame_size_error []) applied v
          (apply_settings-HasCredit sid c (parse_settings f.payload) s v)))
