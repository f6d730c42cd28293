-- ===== src/Hpack.antt =====
-- HPACK, RFC 7541: src/http/hpack.c, src/http/dynamic_hpack_table.c and src/http/hpack_huffman.c.
pub mod Integer
pub mod Types
pub mod DynamicTable
pub mod TableState
pub mod Huffman
pub mod Decompress
pub mod Compress
pub mod RoundTrip
mod Tests
