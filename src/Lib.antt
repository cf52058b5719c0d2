-- ===== src/Lib.antt =====
-- A verification library of async_net: models of the C++ code and the theorems on them.
--
-- async_net is a networking library: an event loop over the operating system's queues, coroutines,
-- and protocols on top (HTTP/1.1, HTTP/2, HTTP/3, WebSocket, gRPC, an RPC over FlatBuffers, a
-- peer-to-peer tracker). Modelled are the protocol codecs, which are pure or keep a small state
-- of their own, and read what a peer sends.
--
-- Parts and files:
--   Base: tests on numbers, lists over native numbers, bytes, masks, copies into a buffer.
--   Buffer: `class dynamic_buffer` of include/async_net/io/buffer.hpp; Queue relates it to a queue.
--   Http2/Frame: src/http/h2_frame.hpp, the enumerations (Frame/Code, Frame/Flag), `frame_header`
--     with `write_to` and `read_from`, the `build_*` and `parse_*` functions under their names.
--   Http2/Reader: `class frame_reader` of the same file. The fields of `Reader` are those of the
--     class; `feed` gives the reader after the call and the number of bytes consumed.
--   Http2/Hpack: src/http/hpack.cpp. Int is `hpack_encode_int` and `hpack_decode_int`, HuffmanTable
--     and Huffman the table `HUFF` and the coder, StaticTable and DynamicTable the two tables, Codec
--     the strings, `hpack_encoder` and `hpack_decoder`.
--   Http2/Session: src/http/http2_session.cpp. State is `http2_session::impl` with its streams and
--     promises, Frames `build_headers_frame` and `build_data_frames`, Submit the `do_submit_*`
--     functions, Dispatch what a complete message leads to, Receive and Settings the `handle_*`
--     functions, Feed `feed` and `process_frame`. Inv and its children hold the invariant, Fragments
--     the cutting and joining of header blocks, Delivered the fields that are to come of a message,
--     Fields and Messages what a receiver reads of it.
--   Http: include/async_net/http/types.hpp. Method is `method` and `version`, Headers `class headers`,
--     Message `request`, `response` and their builders, Uri `class uri` and `query_param`; Text is
--     what the sources use of the C++ library on text.
--   Http1: src/http/http1_codec.cpp. Lines is `find_header_end` and `parse_header_lines`, Body
--     `parse_body`, Codec the parsers and serializers of messages. Fields, Heads and Hex hold the
--     lemmas, Requests, Responses and Chunks what comes back of what is sent.
--   Http3: src/http/h3_frame.hpp. Varint is the QUIC integers, Frame the `build_*` and `parse_*`
--     functions, Reader `class frame_reader`.
--   WebSocket: include/async_net/http/websocket.hpp. Frame is `encode_frame` and `parse_frame`,
--     Connection `class websocket_connection` with `read_frame`, `receive` and `write_raw`; Sha1,
--     Base64 and Handshake are `sha1_detail`, `base64_detail` and `compute_accept_key`. Codec and the
--     children of Connection hold the proofs.
--   Grpc: Wire is src/grpc/grpc_wire.cpp, Deframer include/async_net/grpc/stream_deframer.hpp, Reader
--     the `reader` of src/grpc/grpc_stream.cpp, whose waiting coroutine is a number.
--   The files Examples and Tests hold the theorems and the definitions at concrete inputs.
--
-- How they interact: an HTTP/2 session feeds bytes to `frame_reader`, takes the frames, and hands the
-- payloads to the `parse_*` functions and the header blocks to `hpack_decoder`; to send, it encodes
-- headers by `hpack_encoder` and puts payloads into frames by the `build_*` functions. The payloads
-- of gRPC streams go to a `stream_deframer`, which pushes the messages into a `reader`. A WebSocket
-- connection reads its socket by itself; the model is given what the reads return, in order, and logs
-- what is written.
--
-- The handlers that an application gives to an HTTP/2 session are parameters that act on the session,
-- as they may call it again; a theorem that needs it says what they keep.
--
-- Numbers and bytes: a byte is a number below 256, and a string or a buffer the list of its bytes.
-- Machine words are native numbers with the modulus written out where the code can reach it; an
-- `int32_t` stands as its 32-bit pattern. What C++ leaves undefined (a shift too far, a read behind
-- a buffer) is a result of its own, `undefined`.
--
-- Fuel: `feed_loop` runs on the length of the input, since a round that goes on takes a byte at
-- least, and that of HTTP/3 on one more, for the round that completes a frame; `evict_while` on the
-- number of entries, since a round takes one out; `decode_loop` on the length of the block, since a field takes a byte at least; `receive_loop` and `deframe_loop` on one
-- more than the bytes to come, since a frame takes two and a message five at least; the loops that cut a
-- block or a body into frames run on its length, since a frame takes a byte at least, and `drain` on
-- two, since a reader has one frame at a time; `fill` on 64, since
-- fewer zeros are added. The loops of the HTTP/1.1 codec run on the length of their text, since a
-- line or a chunk takes two bytes at least; only a chunk size near 2^64, whose sum wraps around, moves
-- the position back, and such a body uses up any fuel: the result is then `unfinished`.
--
-- Not modelled: sockets, threads, coroutines and the libraries for TLS and QUIC, which are calls of
-- the system; the session of HTTP/3, `flush` of the HTTP/2
-- session, and the clients and servers that tie the parts to them; names for logs.
pub mod Base
pub mod Buffer
pub mod Grpc
pub mod Http
pub mod Http1
pub mod Http2
pub mod Http3
pub mod WebSocket
