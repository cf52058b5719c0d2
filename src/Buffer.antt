-- ===== src/Buffer.antt =====
-- `class dynamic_buffer` of include/async_net/io/buffer.hpp. The sizes are below 2^63, so that no
-- `size_t` wraps.
pub mod Queue
mod Examples
use async_net.Base.{
  ℕ, ◌+◌, ◌-◌, ◌*◌, min, max, List, [], ◌++◌, if◌then◌else◌, ltb, ◌==◌, length, take, drop,
  replicate, copy_at,
}

pub record DynamicBuffer : Type 0 where
  pub bytes : List ℕ
  pub read_pos : ℕ
  pub write_pos : ℕ

unfoldable pub new_buffer : ℕ → DynamicBuffer
new_buffer initial_capacity = record {
  bytes = replicate initial_capacity 0;
  read_pos = 0;
  write_pos = 0;
}

-- `prepare`: the buffer after it; the region that it returns starts at `write_pos`.
unfoldable pub prepare : DynamicBuffer → ℕ → DynamicBuffer
prepare b n =
    if ltb (length b.bytes) (b.write_pos + n)
    then record b {
      bytes = b.bytes ++ replicate (max (length b.bytes * 2) (b.write_pos + n) - length b.bytes) 0;
    }
    else b

-- What the owner of the region stores in it.
unfoldable pub store : DynamicBuffer → List ℕ → DynamicBuffer
store b input = record b { bytes = copy_at b.bytes b.write_pos input }

unfoldable pub commit : DynamicBuffer → ℕ → DynamicBuffer
commit b n = record b { write_pos = b.write_pos + min n (length b.bytes - b.write_pos) }

-- `data`: the bytes between the positions.
unfoldable pub contents : DynamicBuffer → List ℕ
contents b = take (b.write_pos - b.read_pos) (drop b.read_pos b.bytes)

unfoldable pub consume : DynamicBuffer → ℕ → DynamicBuffer
consume b n =
    let read_pos = b.read_pos + min n (b.write_pos - b.read_pos) in
    if read_pos == b.write_pos
    then record b { read_pos = 0; write_pos = 0 }
    else record b { read_pos = read_pos }

unfoldable size : DynamicBuffer → ℕ
size b = b.write_pos - b.read_pos

unfoldable capacity : DynamicBuffer → ℕ
capacity b = length b.bytes - b.write_pos

unfoldable clear : DynamicBuffer → DynamicBuffer
clear b = record b { read_pos = 0; write_pos = 0 }
