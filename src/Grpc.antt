-- ===== src/Grpc.antt =====
-- The gRPC framing: src/grpc/grpc_wire.cpp, include/async_net/grpc/stream_deframer.hpp and the
-- reader of src/grpc/grpc_stream.cpp.
pub mod Wire
pub mod Deframer
pub mod Reader
mod Examples
