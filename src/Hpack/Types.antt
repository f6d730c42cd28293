-- ===== src/Hpack/Types.antt =====
-- Strings, header fields and table entries, and what the build generates for HPACK: the static
-- table, its lookup, the Huffman tree and the Huffman code table.
use my_simple_c_http_server.Prelude.{ℕ, Bool, List, Option, none, some, Bytes, length}

-- `tstr`: null, or a string of bytes.
abbrev pub Tstr : Type 0
Tstr = Option Bytes

abbrev pub tstr_null : Tstr
tstr_null = none

abbrev pub tstr_init : Tstr
tstr_init = some List.[]

-- The bytes of a string. The code asks a null string for none.
abbrev pub tstr_cstr : Tstr → Bytes
tstr_cstr none = List.[]
tstr_cstr (some bytes) = bytes

abbrev pub tstr_len : Tstr → ℕ
tstr_len s = length (tstr_cstr s)

pub record HttpHeaderField : Type 0 where
  pub key : Tstr
  pub value : Tstr

-- `HpackHeaderDynamicEntry`, and `HpackHeaderStaticEntry` with the same members.
pub record HpackHeaderDynamicEntry : Type 0 where
  pub key : Tstr
  pub value : Tstr

abbrev pub null_entry : HpackHeaderDynamicEntry
null_entry = record { key = tstr_null; value = tstr_null }

-- A node of the generated decoding tree.
pub data HuffmanNode : Type 0 where
  node : HuffmanNode → HuffmanNode → HuffmanNode
  end : ℕ → HuffmanNode
  invalid : HuffmanNode

-- An entry of the generated encoding table: the bits of the code, first bit lowest.
pub record HuffmanEncodeEntry : Type 0 where
  pub value : ℕ
  pub bit_size : ℕ

pub data StaticTableFindResult : Type 0 where
  all_found : ℕ → StaticTableFindResult
  key_found : ℕ → StaticTableFindResult
  not_found : StaticTableFindResult

-- What the program takes from outside: the generated tables and lookups, the equality of the string
-- library, and whether the allocator grants a dynamic table of so many entries.
pub record External : Type 0 where
  pub static_table : List HpackHeaderDynamicEntry
  pub find_in_static_table_fast : HttpHeaderField → StaticTableFindResult
  pub is_common_field_key_fast : Tstr → Bool
  pub tree : HuffmanNode
  pub encode_map : ℕ → HuffmanEncodeEntry
  pub tstr_eq : Tstr → Tstr → Bool
  pub can_alloc : ℕ → Bool
