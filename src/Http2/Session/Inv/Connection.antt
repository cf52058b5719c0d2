-- ===== src/Http2/Session/Inv/Connection.antt =====
-- The frames of the connection keep the invariant of `http2_session::impl`.
use async_net.Base.{
  ℕ, ◌%◌, List, [], ◌∷◌, true, ◌||◌, not, Bool-cases, Option-cases, inl, inr, if◌then◌else◌, arith,
  length, ◌==◌, bytes, ltb, ℤ, pos, ◌+ℤ◌, ltb_ℤ,
}
use async_net.Http2.Frame.{
  Frame, has_flag, SettingEntry, settings_param_size, parse_settings, build_ping, build_rst_stream,
  parse_window_update,
}
use async_net.Http2.Frame.Flag
use async_net.Http2.Frame.Code.{
  protocol_error, frame_size_error, flow_control_error, SettingId, header_table_size, enable_push,
  max_concurrent_streams, initial_window_size, max_frame_size, max_header_list_size,
}
use async_net.Http2.Session.State.{
  Session, Streams, enqueue, goaway, find_stream, put_stream, max_window_size,
}
use async_net.Http2.Session.Settings.{
  shift_windows, set_initial_window, apply_setting, apply_settings, handle_settings, handle_ping,
  grow_connection, grow_stream, handle_window_update,
}
use async_net.Http2.Session.Inv.{
  IsValid, StreamsIn, put_stream-StreamsIn, find_stream-InWindow, with_streams,
}
use async_net.Http2.Session.Inv.Dispatching.{if-IsValid}
use async_net.Http2.Session.Inv.Handling.{goaway-IsValid}

shift_windows-StreamsIn :
    (delta : ℤ) (m : Streams) → StreamsIn m → StreamsIn (shift_windows delta m)
unfolding shift_windows
shift_windows-StreamsIn delta [] h = tt
shift_windows-StreamsIn delta ((key, ss) ∷ m) h = (h.0, shift_windows-StreamsIn delta m h.1)

apply_setting-IsValid :
    (id : SettingId) (value : ℕ) (s : Session) → IsValid s → IsValid (apply_setting id value s).0
unfolding apply_setting
apply_setting-IsValid header_table_size value s v = record { limits = v.limits }
apply_setting-IsValid enable_push value s v = record { limits = v.limits }
apply_setting-IsValid max_concurrent_streams value s v = v
apply_setting-IsValid initial_window_size value s v =
    elim (Bool-cases (ltb max_window_size value)) [
      | inl large ↦ rw (large, apply_setting) (goaway-IsValid s flow_control_error [] v)
      | inr fits ↦
          rw (fits, apply_setting)
            (unfold set_initial_window in
              record {
                limits = record {
                  connection = v.connection;
                  each_stream = shift_windows-StreamsIn _ s.streams v.each_stream;
                  frame_low = v.frame_low;
                  frame_high = v.frame_high;
                  initial_window = ground arith;
                  reader_valid = v.reader_valid;
                };
              })
    ]
apply_setting-IsValid max_frame_size value s v =
    elim (Bool-cases (ltb value 16384 || ltb 16777215 value)) [
      | inl bad ↦ rw (bad, apply_setting) (goaway-IsValid s protocol_error _ v)
      | inr fits ↦
          rw (fits, apply_setting)
            (record {
              limits = record {
                connection = v.connection;
                each_stream = v.each_stream;
                frame_low = ground arith;
                frame_high = ground arith;
                initial_window = v.initial_window;
                reader_valid = v.reader_valid;
              };
            })
    ]
apply_setting-IsValid max_header_list_size value s v = v
apply_setting-IsValid (SettingId.other n) value s v = v

apply_settings-IsValid :
    (es : List SettingEntry) (s : Session) → IsValid s → IsValid (apply_settings es s)
unfolding apply_settings
apply_settings-IsValid [] s v = record { limits = v.limits }
apply_settings-IsValid (e ∷ es) s v =
    let applied = apply_setting e.id e.value s in
    let w = apply_setting-IsValid e.id e.value s v in
    elim (Bool-cases applied.1) [
      | inl on ↦ rw (on, apply_settings) (apply_settings-IsValid es applied.0 w)
      | inr off ↦ rw (off, apply_settings) w
    ]

pub handle_settings-IsValid : (f : Frame) (s : Session) → IsValid s → IsValid (handle_settings f s)
unfolding handle_settings
handle_settings-IsValid f s v =
    let whole = length f.payload % settings_param_size == 0 in
    let applied = apply_settings (parse_settings f.payload) s in
    let refused = if not whole then goaway s frame_size_error [] else applied in
    let misplaced = goaway s protocol_error (bytes "SETTINGS on non-zero stream") in
    if-IsValid (not (f.hdr.stream_id == 0)) misplaced
      (if has_flag f.hdr Flag.ack then s else refused)
      (goaway-IsValid s protocol_error (bytes "SETTINGS on non-zero stream") v)
      (if-IsValid (has_flag f.hdr Flag.ack) s refused v (
        if-IsValid (not whole) (goaway s frame_size_error []) applied
          (goaway-IsValid s frame_size_error [] v)
          (apply_settings-IsValid (parse_settings f.payload) s v)))

pub handle_ping-IsValid : (f : Frame) (s : Session) → IsValid s → IsValid (handle_ping f s)
unfolding handle_ping
handle_ping-IsValid f s v =
    let misplaced = goaway s protocol_error (bytes "PING on non-zero stream") in
    let answered = enqueue s (build_ping f.payload true) in
    let ask = not (has_flag f.hdr Flag.ack) in
    let eight = length f.payload == 8 in
    if-IsValid (not (f.hdr.stream_id == 0)) misplaced
      (if not eight then goaway s frame_size_error [] else if ask then answered else s)
      (goaway-IsValid s protocol_error (bytes "PING on non-zero stream") v)
      (if-IsValid (not eight) (goaway s frame_size_error []) (if ask then answered else s)
        (goaway-IsValid s frame_size_error [] v)
        (if-IsValid ask answered s (record { limits = v.limits }) v))

grow_connection-IsValid :
    (increment : ℕ) (s : Session) → IsValid s → IsValid (grow_connection increment s)
unfolding grow_connection
grow_connection-IsValid increment s v =
    let s' = record s { conn_send_window = s.conn_send_window +ℤ pos increment } in
    if-IsValid (ltb_ℤ (pos max_window_size) s'.conn_send_window) (goaway s' flow_control_error [])
      s' (goaway-IsValid s' flow_control_error [] (record { limits = v.limits }))
      (record { limits = v.limits })

grow_stream-IsValid :
    (sid increment : ℕ) (s : Session) → IsValid s → IsValid (grow_stream sid increment s)
unfolding grow_stream
grow_stream-IsValid sid increment s v = elim (Option-cases (find_stream sid s.streams)) [
  | inl e ↦ rw (e, grow_stream) v
  | inr (ss, e) ↦
      let window = ss.send_window +ℤ pos increment in
      let m = put_stream sid (record ss { send_window = window }) s.streams in
      let s' = record s { streams = m } in
      let v' : IsValid s' = with_streams m v (
        put_stream-StreamsIn sid (record ss { send_window = window }) s.streams
          (find_stream-InWindow sid s.streams ss v.each_stream e) v.each_stream) in
      rw (e, grow_stream)
        (if-IsValid (ltb_ℤ (pos max_window_size) window)
          (enqueue s' (build_rst_stream sid flow_control_error)) s' (record { limits = v'.limits })
          v')
]

pub handle_window_update-IsValid :
    (f : Frame) (s : Session) → IsValid s → IsValid (handle_window_update f s)
unfolding handle_window_update
handle_window_update-IsValid f s v =
    let sid = f.hdr.stream_id in
    let increment = parse_window_update f.payload in
    let grown = if sid == 0 then grow_connection increment s else grow_stream sid increment s in
    let reset = enqueue s (build_rst_stream sid protocol_error) in
    let broken = goaway s protocol_error (bytes "WINDOW_UPDATE 0 increment") in
    let none_given = if sid == 0 then broken else reset in
    if-IsValid (not (length f.payload == 4)) (goaway s frame_size_error [])
      (if increment == 0 then none_given else grown) (goaway-IsValid s frame_size_error [] v)
      (if-IsValid (increment == 0) none_given grown
        (if-IsValid (sid == 0) broken reset
          (goaway-IsValid s protocol_error (bytes "WINDOW_UPDATE 0 increment") v)
          (record { limits = v.limits }))
        (if-IsValid (sid == 0) (grow_connection increment s) (grow_stream sid increment s)
          (grow_connection-IsValid increment s v) (grow_stream-IsValid sid increment s v)))
