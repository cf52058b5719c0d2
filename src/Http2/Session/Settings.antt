-- ===== src/Http2/Session/Settings.antt =====
-- The frames of the connection in src/http/http2_session.cpp: `handle_settings`, `handle_ping`,
-- `handle_window_update` and `handle_goaway`.
use async_net.Base.{ℕ, ◌%◌, List, [], ◌∷◌, Bool, true, false, ◌||◌, not, none, some}
use async_net.Base.{ltb, ◌==◌, if◌then◌else◌, bytes, length, ℤ, pos, ltb_ℤ, ◌+ℤ◌, ◌-ℤ◌}
use async_net.Http2.Frame.{
  Frame, has_flag, SettingEntry, settings_param_size, parse_settings, build_settings_frame,
  build_ping, build_rst_stream, parse_window_update,
}
use async_net.Http2.Frame.Code.{
  protocol_error, frame_size_error, flow_control_error, SettingId, header_table_size,
  max_concurrent_streams, initial_window_size, max_frame_size, max_header_list_size, enable_push,
}
use async_net.Http2.Frame.Flag
use async_net.Http2.Hpack.Codec.{encoder_set_max_table_size}
use async_net.Http2.Session.State.{
  Session, Streams, max_window_size, find_stream, put_stream, enqueue, goaway,
}

-- `ss.send_window += delta` for every stream.
unfoldable pub shift_windows : ℤ → Streams → Streams
unfolding ◌+ℤ◌
shift_windows delta [] = []
shift_windows delta ((key, ss) ∷ rest) =
    (key, record ss { send_window = ss.send_window +ℤ delta }) ∷ shift_windows delta rest

-- The case for INITIAL_WINDOW_SIZE with a value that is not too large.
unfoldable pub set_initial_window : ℕ → Session → Session
unfolding shift_windows ◌-ℤ◌
set_initial_window value s = record s {
  streams = shift_windows (pos value -ℤ pos s.peer_initial_window_size) s.streams;
  peer_initial_window_size = value;
}

-- The body of the loop of `handle_settings`, and whether the loop goes on.
unfoldable pub apply_setting : SettingId → ℕ → Session → Session × Bool
unfolding set_initial_window goaway
apply_setting header_table_size value s =
    (record s { encoder = encoder_set_max_table_size s.encoder value }, true)
apply_setting enable_push value s = (record s { peer_enable_push = not (value == 0) }, true)
apply_setting max_concurrent_streams value s = (s, true)
apply_setting initial_window_size value s =
    if ltb max_window_size value
    then (goaway s flow_control_error [], false)
    else (set_initial_window value s, true)
apply_setting max_frame_size value s =
    if ltb value 16384 || ltb 16777215 value
    then (goaway s protocol_error (bytes "Invalid MAX_FRAME_SIZE"), false)
    else (record s { peer_max_frame_size = value }, true)
apply_setting max_header_list_size value s = (s, true)
apply_setting (SettingId.other n) value s = (s, true)

-- The loop, and the acknowledgement behind it.
unfoldable pub apply_settings : List SettingEntry → Session → Session
unfolding apply_setting
apply_settings [] s = enqueue s (build_settings_frame [] true)
apply_settings (e ∷ es) s =
    let (s', goes_on) = apply_setting e.id e.value s in
    elim goes_on [ true ↦ apply_settings es s' | false ↦ s' ]

unfoldable pub handle_settings : Frame → Session → Session
unfolding apply_settings goaway has_flag
handle_settings f s =
    if not (f.hdr.stream_id == 0)
    then goaway s protocol_error (bytes "SETTINGS on non-zero stream")
    else if has_flag f.hdr Flag.ack
    then s
    else if not (length f.payload % settings_param_size == 0)
    then goaway s frame_size_error []
    else apply_settings (parse_settings f.payload) s

unfoldable pub handle_ping : Frame → Session → Session
unfolding goaway has_flag
handle_ping f s =
    if not (f.hdr.stream_id == 0)
    then goaway s protocol_error (bytes "PING on non-zero stream")
    else if not (length f.payload == 8)
    then goaway s frame_size_error []
    else if not (has_flag f.hdr Flag.ack)
    then enqueue s (build_ping f.payload true)
    else s

-- The window of the connection.
unfoldable pub grow_connection : ℕ → Session → Session
unfolding ◌+ℤ◌ goaway
grow_connection increment s =
    let s' = record s { conn_send_window = s.conn_send_window +ℤ pos increment } in
    if ltb_ℤ (pos max_window_size) s'.conn_send_window then goaway s' flow_control_error [] else s'

-- The window of a stream.
unfoldable pub grow_stream : ℕ → ℕ → Session → Session
unfolding ◌+ℤ◌ find_stream put_stream
grow_stream sid increment s = elim (find_stream sid s.streams) [
  | none ↦ s
  | some ss ↦
      let window = ss.send_window +ℤ pos increment in
      let s' = record s {
        streams = put_stream sid (record ss { send_window = window }) s.streams;
      } in
      if ltb_ℤ (pos max_window_size) window
      then enqueue s' (build_rst_stream sid flow_control_error)
      else s'
]

unfoldable pub handle_window_update : Frame → Session → Session
unfolding goaway grow_connection grow_stream
handle_window_update f s =
    let sid = f.hdr.stream_id in
    let increment = parse_window_update f.payload in
    if not (length f.payload == 4)
    then goaway s frame_size_error []
    else if increment == 0
    then (if sid == 0
        then goaway s protocol_error (bytes "WINDOW_UPDATE 0 increment")
        else enqueue s (build_rst_stream sid protocol_error))
    else if sid == 0
    then grow_connection increment s
    else grow_stream sid increment s

-- What the frame says is only logged.
unfoldable pub handle_goaway : Frame → Session → Session
handle_goaway f s = record s { alive = false }
