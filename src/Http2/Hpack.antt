-- ===== src/Http2/Hpack.antt =====
-- src/http/hpack.cpp: header compression.
pub mod Int
pub mod Entry
pub mod StaticTable
pub mod HuffmanTable
pub mod DynamicTable
pub mod Huffman
pub mod Search
pub mod Codec
mod Examples
