-- ===== src/Hpack/Compress.antt =====
-- The HPACK encoder of src/http/hpack.c. Buffers of the calculated size are granted; a write behind
-- the end of one is a fault.
pub mod Lookup
pub mod Fields
pub mod Literal
use my_simple_c_http_server.Prelude.{
  ℕ, zero, suc, ◌+◌, ◌-◌, ◌%◌, Bool, true, false, not, ◌&&◌, List, [], ◌∷◌, ◌++◌, Option, none,
  some, ltb, leb, ◌==◌, if◌then◌else◌, Bytes, u64, length, Outcome, ok, error, fault, stuck, ◌>>=◌,
  with_error, map_ok,
}
use my_simple_c_http_server.Hpack.Types.{
  Tstr, tstr_len, tstr_cstr, HttpHeaderField, HpackHeaderDynamicEntry, null_entry, External,
  StaticTableFindResult, all_found, key_found, not_found,
}
use my_simple_c_http_server.Hpack.Integer.{
  encode_hpack_variable_integer, max_hpack_variable_integer_size,
}
use my_simple_c_http_server.Hpack.DynamicTable.{size, at}
use my_simple_c_http_server.Hpack.TableState.{
  HpackDynamicTableState, insert_entry_into_dynamic_table,
}
use my_simple_c_http_server.Hpack.Huffman.{
  hpack_huffman_get_encoded_size, hpack_huffman_encode_value_fixed_size,
}

-- The buffer with `.data = NULL`.
pub data NullBuffer : Type 0 where
  null_buffer : NullBuffer

abbrev pub Buffer : Type 0
Buffer = Outcome NullBuffer Bytes

pub data Http2HpackHuffmanUsage : Type 0 where
  auto always never : Http2HpackHuffmanUsage

pub data Http2HpackCompressType : Type 0 where
  no_table_usage static_table_usage all_tables_usage : Http2HpackCompressType

pub data Http2HpackTableAddType : Type 0 where
  add_none add_common add_all : Http2HpackTableAddType

pub record Http2HpackCompressOptions : Type 0 where
  pub huffman_usage : Http2HpackHuffmanUsage
  pub type : Http2HpackCompressType
  pub table_add_type : Http2HpackTableAddType

-- `chunk` written behind `out`, in a buffer of `max_size` bytes.
pub write : ℕ → Bytes → Bytes → Buffer
write max_size chunk out =
    if ltb max_size (length out + length chunk) then fault else ok (out ++ chunk)

-- The bytes of an integer behind `out`. Some callers test its length against
-- MAX_HPACK_VARIABLE_INTEGER_SIZE as well.
pub write_encoded : ℕ → Bool → Bytes → Option Bytes → Buffer
write_encoded max_size tested out none = error null_buffer
write_encoded max_size tested out (some bytes) = write max_size bytes out >>= λ out'.
    if tested && ltb max_hpack_variable_integer_size (length bytes)
    then error null_buffer
    else ok out'

-- encode_hpack_variable_integer at `data + i`, over a byte set to `flag`.
pub write_integer : ℕ → Bool → ℕ → ℕ → ℕ → Bytes → Buffer
write_integer max_size tested flag prefix_bits value out =
    write_encoded max_size tested out (encode_hpack_variable_integer flag value prefix_bits)

-- The test and the `realloc` at the end.
abbrev pub finish : ℕ → Bytes → Buffer
finish max_size out = if ltb max_size (length out) then error null_buffer else ok out

-- A string with its length, without Huffman coding.
pub write_plain : ℕ → Tstr → Bytes → Buffer
write_plain max_size str out =
    write_integer max_size true 0x00 7 (tstr_len str) out >>= write max_size (tstr_cstr str)

-- The sizes of the buffers.
abbrev pub variant1_size : ℕ → ℕ
variant1_size value_size =
    u64 (1 + max_hpack_variable_integer_size + max_hpack_variable_integer_size + value_size)

abbrev pub variant2_size : ℕ → ℕ → ℕ
variant2_size key_size value_size =
    u64 (
      max_hpack_variable_integer_size + max_hpack_variable_integer_size + key_size + value_size + 1)

-- A buffer, with the state that the encoding of the field leaves.
abbrev pub Encoded : Type 0
Encoded = Outcome NullBuffer (Bytes × HpackDynamicTableState)

module _ (ext : External) where
  open ext use {encode_map, tstr_eq, can_alloc}

  -- A string with the length of its Huffman code, which must come out at `encoded_size` bytes.
  pub write_huffman : ℕ → ℕ → Tstr → Bytes → Buffer
  write_huffman max_size encoded_size str out =
      write_integer max_size false 0x80 7 encoded_size out >>= λ out'.
      with_error (λ _. null_buffer)
        (hpack_huffman_encode_value_fixed_size encode_map (max_size - length out') encoded_size str)
      >>= λ bytes.
          if length bytes == encoded_size then write max_size bytes out' else error null_buffer

  -- The four bodies that a literal field may have; the two representations differ in the flag and
  -- the prefix of the first byte.
  pub variant1_no_huffman : ℕ → ℕ → ℕ → Tstr → Buffer
  variant1_no_huffman flag prefix_bits field_key_table_idx field_value =
      let max_size = variant1_size (tstr_len field_value) in
      write_integer max_size true flag prefix_bits field_key_table_idx []
      >>= write_plain max_size field_value
      >>= finish max_size

  -- The incremental representation tests the length of the index here, the other does not.
  pub variant1_huffman : Bool → ℕ → ℕ → ℕ → Tstr → ℕ → Buffer
  variant1_huffman tested flag prefix_bits field_key_table_idx field_value size_value =
      let max_size = variant1_size size_value in
      write_integer max_size tested flag prefix_bits field_key_table_idx []
      >>= write_huffman max_size size_value field_value
      >>= finish max_size

  pub variant2_no_huffman : ℕ → HttpHeaderField → Buffer
  variant2_no_huffman flag field =
      let max_size = variant2_size (tstr_len field.key) (tstr_len field.value) in
      write max_size (flag ∷ []) []
      >>= write_plain max_size field.key
      >>= write_plain max_size field.value
      >>= finish max_size

  pub variant2_huffman : ℕ → HttpHeaderField → ℕ → ℕ → Buffer
  variant2_huffman flag field size_key size_value =
      let max_size = variant2_size size_key size_value in
      write max_size (flag ∷ []) []
      >>= write_huffman max_size size_key field.key
      >>= write_huffman max_size size_value field.value
      >>= finish max_size

  abbrev encoded_size : Tstr → ℕ
  encoded_size = hpack_huffman_get_encoded_size encode_map

  -- The choice by Http2HpackHuffmanUsage for each variant, between its two functions. The second one
  -- takes the sizes of the Huffman codes.
  unfoldable pub variant1 : {A : Type 0} → A → (ℕ → A) → Tstr → Http2HpackHuffmanUsage → A
  variant1 no_huffman huffman value never = no_huffman
  variant1 no_huffman huffman value always = huffman (encoded_size value)
  variant1 no_huffman huffman value auto =
      if ltb (encoded_size value) (tstr_len value) then huffman (encoded_size value) else no_huffman

  unfoldable pub variant2 :
      {A : Type 0} → A → (ℕ → ℕ → A) → HttpHeaderField → Http2HpackHuffmanUsage → A
  variant2 no_huffman huffman field never = no_huffman
  variant2 no_huffman huffman field always =
      huffman (encoded_size field.key) (encoded_size field.value)
  variant2 no_huffman huffman field auto =
      if ltb (u64 (encoded_size field.key + encoded_size field.value))
        (u64 (tstr_len field.key + tstr_len field.value))
      then huffman (encoded_size field.key) (encoded_size field.value)
      else no_huffman

  abbrev pub encode_single_header_field_literal_never_indexed_variant1_no_huffman :
      ℕ → Tstr → Buffer
  encode_single_header_field_literal_never_indexed_variant1_no_huffman = variant1_no_huffman 0x10 4

  abbrev pub encode_single_header_field_literal_never_indexed_variant1_huffman :
      ℕ → Tstr → ℕ → Buffer
  encode_single_header_field_literal_never_indexed_variant1_huffman = variant1_huffman false 0x10 4

  abbrev pub encode_single_header_field_literal_never_indexed_variant2_no_huffman :
      HttpHeaderField → Buffer
  encode_single_header_field_literal_never_indexed_variant2_no_huffman = variant2_no_huffman 0x10

  abbrev pub encode_single_header_field_literal_never_indexed_variant2_huffman :
      HttpHeaderField → ℕ → ℕ → Buffer
  encode_single_header_field_literal_never_indexed_variant2_huffman = variant2_huffman 0x10

  unfoldable pub encode_single_header_field_literal_never_indexed_variant1 :
      ℕ → Tstr → Http2HpackHuffmanUsage → Buffer
  encode_single_header_field_literal_never_indexed_variant1 idx value =
      variant1 (encode_single_header_field_literal_never_indexed_variant1_no_huffman idx value)
        (encode_single_header_field_literal_never_indexed_variant1_huffman idx value) value

  unfoldable pub encode_single_header_field_literal_never_indexed_variant2 :
      HttpHeaderField → Http2HpackHuffmanUsage → Buffer
  encode_single_header_field_literal_never_indexed_variant2 field =
      variant2 (encode_single_header_field_literal_never_indexed_variant2_no_huffman field)
        (encode_single_header_field_literal_never_indexed_variant2_huffman field) field

  -- The table insertion that follows a buffer of the incremental representation.
  unfoldable pub then_insert : HpackDynamicTableState → HttpHeaderField → Bytes → Encoded
  then_insert state field bytes =
      elim (insert_entry_into_dynamic_table can_alloc state
        (record { key = field.key; value = field.value })) [
          | none ↦ stuck
          | some state' ↦ ok (bytes, state')
        ]

  abbrev pub encode_single_header_field_literal_incremental_indexing_variant1_no_huffman :
      ℕ → HttpHeaderField → HpackDynamicTableState → Encoded
  encode_single_header_field_literal_incremental_indexing_variant1_no_huffman idx field state =
      variant1_no_huffman 0x40 6 idx field.value >>= then_insert state field

  abbrev pub encode_single_header_field_literal_incremental_indexing_variant1_huffman :
      ℕ → HttpHeaderField → ℕ → HpackDynamicTableState → Encoded
  encode_single_header_field_literal_incremental_indexing_variant1_huffman idx field size_value
        state =
      variant1_huffman true 0x40 6 idx field.value size_value >>= then_insert state field

  abbrev pub encode_single_header_field_literal_incremental_indexing_variant2_no_huffman :
      HttpHeaderField → HpackDynamicTableState → Encoded
  encode_single_header_field_literal_incremental_indexing_variant2_no_huffman field state =
      variant2_no_huffman 0x40 field >>= then_insert state field

  abbrev pub encode_single_header_field_literal_incremental_indexing_variant2_huffman :
      HttpHeaderField → ℕ → ℕ → HpackDynamicTableState → Encoded
  encode_single_header_field_literal_incremental_indexing_variant2_huffman field size_key size_value
        state =
      variant2_huffman 0x40 field size_key size_value >>= then_insert state field

  unfoldable pub encode_single_header_field_literal_incremental_indexing_variant1 :
      ℕ → HttpHeaderField → Http2HpackHuffmanUsage → HpackDynamicTableState → Encoded
  encode_single_header_field_literal_incremental_indexing_variant1 idx field usage state =
      variant1
        (encode_single_header_field_literal_incremental_indexing_variant1_no_huffman idx field
          state)
        (λ size_value.
          encode_single_header_field_literal_incremental_indexing_variant1_huffman idx field
            size_value state)
        field.value usage

  unfoldable pub encode_single_header_field_literal_incremental_indexing_variant2 :
      HttpHeaderField → Http2HpackHuffmanUsage → HpackDynamicTableState → Encoded
  encode_single_header_field_literal_incremental_indexing_variant2 field usage state =
      variant2
        (encode_single_header_field_literal_incremental_indexing_variant2_no_huffman field state)
        (λ size_key size_value.
          encode_single_header_field_literal_incremental_indexing_variant2_huffman field size_key
            size_value state)
        field usage
