-- ===== src/Http2/Session/Streams.antt =====
-- Laws of the map of streams in src/http/http2_session.cpp.
use async_net.Base.{ℕ, [], ◌∷◌, ◌≡◌, refl, arith, some, ◌==◌, if◌then◌else◌}
use async_net.Http2.Session.State.{Stream, Streams, find_stream, put_stream}

pub find_stream-put_stream :
    (sid other : ℕ) (ss : Stream) (m : Streams)
    → find_stream other (put_stream sid ss m)
      ≡ (if sid == other then some ss else find_stream other m)
unfolding find_stream put_stream
find_stream-put_stream sid other ss [] = refl
find_stream-put_stream sid other ss ((key, old) ∷ m) =
    ground (arith, find_stream-put_stream sid other ss m)

pub find_stream-put_stream_self :
    (sid : ℕ) (ss : Stream) (m : Streams) → find_stream sid (put_stream sid ss m) ≡ some ss
find_stream-put_stream_self sid ss m = ground (arith, find_stream-put_stream sid sid ss m)

pub put_stream-put_stream :
    (sid : ℕ) (ss old : Stream) (m : Streams)
    → put_stream sid ss (put_stream sid old m) ≡ put_stream sid ss m
unfolding put_stream
put_stream-put_stream sid ss old [] = ground arith
put_stream-put_stream sid ss old ((key, x) ∷ m) = ground (arith, put_stream-put_stream sid ss old m)
