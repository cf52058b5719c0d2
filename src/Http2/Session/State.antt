-- ===== src/Http2/Session/State.antt =====
-- The state of `http2_session::impl`. A stream id is an `int32_t`. A `std::map` is a list of its keys
-- and values, and a `shared_ptr` is a position in `promises`.
use async_net.Base.{ℕ, ◌-◌, ◌^◌, List, [], ◌∷◌, ◌++◌, Bool, true, false, Option, none, some}
use async_net.Base.{◌==◌, if◌then◌else◌, ℤ, pos}
use async_net.Http.Message.{Request, new_request, Response, new_response}
use async_net.Http2.Frame.{SettingEntry, build_settings_frame, build_goaway}
use async_net.Http2.Frame.Code.{ErrorCode, max_concurrent_streams, initial_window_size}
use async_net.Http2.Frame.Code.{max_header_list_size, enable_push}
use async_net.Http2.Reader.{Reader, new_reader}
use async_net.Http2.Hpack.Codec.{Encoder, new_encoder, Decoder, new_decoder}

pub data Mode : Type 0 where
  server client : Mode

pub data Phase : Type 0 where
  idle open_ half_closed_local half_closed_remote closed : Phase

-- `DEFAULT_WINDOW_SIZE`, `MAX_WINDOW_SIZE` and `DEFAULT_MAX_FRAME_SIZE` of src/http/h2_frame.hpp.
abbrev pub default_window_size : ℕ
default_window_size = 65535

abbrev pub max_window_size : ℕ
max_window_size = 2 ^ 31 - 1

abbrev pub default_max_frame_size : ℕ
default_max_frame_size = 16384

-- `struct stream_state`. `data_cb` names the closure that was set.
pub record Stream : Type 0 where
  pub stream_id : ℕ
  pub state : Phase
  pub req : Request
  pub resp : Response
  pub body : List ℕ
  pub headers_complete : Bool
  pub end_stream : Bool
  pub send_window : ℤ
  pub recv_window : ℤ
  pub promise : Option ℕ
  pub data_cb : Option ℕ
  pub streaming_handled : Bool
  pub pending_header_block : List ℕ

abbrev pub new_stream : Stream
new_stream = record {
  stream_id = 0;
  state = idle;
  req = new_request;
  resp = new_response;
  body = [];
  headers_complete = false;
  end_stream = false;
  send_window = pos default_window_size;
  recv_window = pos default_window_size;
  promise = none;
  data_cb = none;
  streaming_handled = false;
  pending_header_block = [];
}

-- `struct push_promise_info`
pub record PushPromiseInfo : Type 0 where
  pub promised_stream_id : ℕ
  pub promised_request : Request

-- `struct response_promise`. `waiter` names the coroutine that is resumed.
pub record Promise : Type 0 where
  pub resp : Response
  pub complete : Bool
  pub error : Bool
  pub is_push : Bool
  pub push_info : PushPromiseInfo
  pub waiter : Option ℕ

abbrev pub new_promise : Promise
new_promise = record {
  resp = new_response;
  complete = false;
  error = false;
  is_push = false;
  push_info = record { promised_stream_id = 0; promised_request = new_request };
  waiter = none;
}

abbrev pub Streams : Type 0
Streams = List (ℕ × Stream)

-- `impl`, less its handlers. `undefined` is set where C++ leaves undefined what the code does: in the
-- decoder of header blocks, behind which the model goes on with no headers, and where the next stream
-- id is more than an `int32_t` holds.
pub record Session : Type 0 where
  pub mode : Mode
  pub alive : Bool
  pub preface_received : Bool
  pub reader : Reader
  pub output_buf : List ℕ
  pub encoder : Encoder
  pub decoder : Decoder
  pub streams : Streams
  pub next_stream_id : ℕ
  pub last_client_stream : ℕ
  pub conn_send_window : ℤ
  pub conn_recv_window : ℤ
  pub peer_max_frame_size : ℕ
  pub peer_initial_window_size : ℕ
  pub promises : List Promise
  pub completed_promises : List ℕ
  pub continuation_stream : ℕ
  pub peer_enable_push : Bool
  pub next_push_stream_id : ℕ
  pub undefined : Bool

-- The handlers, which the application sets. What one does beside returning its result, it does
-- to the session. `data_callback` runs the closure with the given name, and `resume` a coroutine.
pub record Handlers : Type 0 where
  pub request_handler : Option (Request → Session → Session × Response)
  pub streaming_request_handler : Option (ℕ → Request → Session → Session × Bool)
  pub request_start_handler : Option (ℕ → Request → Bool → Session → Session × Bool)
  pub push_provider : Option (Request → Session → Session × List (Request × Response))
  pub push_handler : Option (PushPromiseInfo → Session → Session)
  pub data_callback : ℕ → ℕ → List ℕ → Bool → Session → Session
  pub resume : ℕ → Session → Session

unfoldable pub find_stream : ℕ → Streams → Option Stream
find_stream sid [] = none
find_stream sid ((key, ss) ∷ rest) = if key == sid then some ss else find_stream sid rest

-- `streams_[sid] = ss`
unfoldable pub put_stream : ℕ → Stream → Streams → Streams
put_stream sid ss [] = (sid, ss) ∷ []
put_stream sid ss ((key, old) ∷ rest) =
    if key == sid then (key, ss) ∷ rest else (key, old) ∷ put_stream sid ss rest

unfoldable pub erase_stream : ℕ → Streams → Streams
erase_stream sid [] = []
erase_stream sid ((key, ss) ∷ rest) = if key == sid then rest else (key, ss) ∷ erase_stream sid rest

-- `streams_[sid]`, which inserts a stream where there is none.
unfoldable pub stream_or_new : ℕ → Streams → Stream
unfolding find_stream
stream_or_new sid streams = elim (find_stream sid streams) [ none ↦ new_stream | some ss ↦ ss ]

-- A change through the reference `ss` to the stream that the map has.
unfoldable pub modify_stream : ℕ → (Stream → Stream) → Session → Session
unfolding find_stream put_stream
modify_stream sid change s = elim (find_stream sid s.streams) [
  | none ↦ s
  | some ss ↦ record s { streams = put_stream sid (change ss) s.streams }
]

abbrev pub enqueue : Session → List ℕ → Session
enqueue s bytes = record s { output_buf = s.output_buf ++ bytes }

unfoldable pub goaway : Session → ErrorCode → List ℕ → Session
goaway s ec debug = record s {
  output_buf = s.output_buf ++ build_goaway s.last_client_stream ec debug;
  alive = false;
}

unfoldable pub get_pending_output : Session → List ℕ × Session
get_pending_output s = (s.output_buf, record s { output_buf = [] })

abbrev pub initial_settings : List SettingEntry
initial_settings =
    record { id = max_concurrent_streams; value = 100 }
    ∷ record { id = initial_window_size; value = 65535 }
    ∷ record { id = max_header_list_size; value = 8192 }
    ∷ record { id = enable_push; value = 1 }
    ∷ []

abbrev first_stream_id : Mode → ℕ
first_stream_id server = 2
first_stream_id client = 1

unfoldable pub new_session : Mode → Session
new_session mode = record {
  mode = mode;
  alive = true;
  preface_received = false;
  reader = new_reader;
  output_buf = build_settings_frame initial_settings false;
  encoder = new_encoder 4096;
  decoder = new_decoder 4096;
  streams = [];
  next_stream_id = first_stream_id mode;
  last_client_stream = 0;
  conn_send_window = pos default_window_size;
  conn_recv_window = pos default_window_size;
  peer_max_frame_size = default_max_frame_size;
  peer_initial_window_size = default_window_size;
  promises = [];
  completed_promises = [];
  continuation_stream = 0;
  peer_enable_push = true;
  next_push_stream_id = 2;
  undefined = false;
}
