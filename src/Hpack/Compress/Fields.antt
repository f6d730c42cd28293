-- ===== src/Hpack/Compress/Fields.antt =====
-- The encoding of header lists: http2_hpack_compress_data of src/http/hpack.c.
use my_simple_c_http_server.Prelude.{
  ℕ, Bool, true, false, List, [], ◌∷◌, ◌++◌, Option, none, some, if◌then◌else◌, Bytes, Outcome, ok,
  ◌>>=◌, with_error, map_ok,
}
use my_simple_c_http_server.Hpack.Types.{HttpHeaderField, External}
use my_simple_c_http_server.Hpack.Integer.{max_hpack_variable_integer_size}
use my_simple_c_http_server.Hpack.TableState.{HpackDynamicTableState}
use my_simple_c_http_server.Hpack.Compress.{
  NullBuffer, Buffer, Encoded, Http2HpackHuffmanUsage, no_table_usage, static_table_usage,
  all_tables_usage, Http2HpackTableAddType, add_none, add_common, add_all,
  Http2HpackCompressOptions, write_integer, finish,
  encode_single_header_field_literal_never_indexed_variant1,
  encode_single_header_field_literal_never_indexed_variant2,
  encode_single_header_field_literal_incremental_indexing_variant1,
  encode_single_header_field_literal_incremental_indexing_variant2,
}
use my_simple_c_http_server.Hpack.Compress.Lookup.{
  TableFindResult, found_nothing, found_key, found_all, find_in_tables,
}

unfoldable pub encode_single_header_field_indexed_header_field : ℕ → Buffer
encode_single_header_field_indexed_header_field entry_table_idx =
    write_integer max_hpack_variable_integer_size true 0x80 7 entry_table_idx []
    >>= finish max_hpack_variable_integer_size

-- A failure comes with the state that the fields before it left.
abbrev pub Compressed : Type 0
Compressed = Outcome HpackDynamicTableState (Option Bytes × HpackDynamicTableState)

-- The result so far, of which `none` is the NULL pointer, with more bytes behind it.
abbrev pub appended : Option Bytes → Bytes → Option Bytes
appended none bytes = some bytes
appended (some result) bytes = some (result ++ bytes)

module _ (ext : External) where
  open ext use {is_common_field_key_fast}

  unfoldable pub should_add_header_to_table : HttpHeaderField → Http2HpackTableAddType → Bool
  should_add_header_to_table field add_none = false
  should_add_header_to_table field add_common = is_common_field_key_fast field.key
  should_add_header_to_table field add_all = true

  abbrev with_state : HpackDynamicTableState → Bytes → Bytes × HpackDynamicTableState
  with_state state bytes = (bytes, state)

  unfoldable pub encode_single_header_field_extended_as_whole :
      HttpHeaderField
      → HpackDynamicTableState
      → Http2HpackHuffmanUsage
      → Http2HpackTableAddType
      → Encoded
  encode_single_header_field_extended_as_whole field state usage add_type =
      if should_add_header_to_table field add_type
      then encode_single_header_field_literal_incremental_indexing_variant2 ext field usage state
      else map_ok (with_state state)
          (encode_single_header_field_literal_never_indexed_variant2 ext field usage)

  unfoldable pub encode_single_header_field_extended_with_key_from_table :
      HttpHeaderField
      → HpackDynamicTableState
      → Http2HpackHuffmanUsage
      → Http2HpackTableAddType
      → ℕ
      → Encoded
  encode_single_header_field_extended_with_key_from_table field state usage add_type key_table_idx =
      if should_add_header_to_table field add_type
      then encode_single_header_field_literal_incremental_indexing_variant1 ext key_table_idx field
          usage state
      else map_ok (with_state state) (
          encode_single_header_field_literal_never_indexed_variant1 ext key_table_idx field.value
            usage)

  -- The branches of encode_single_header_field_extended on what was found.
  unfoldable pub encode_found :
      HttpHeaderField
      → HpackDynamicTableState
      → Http2HpackHuffmanUsage
      → Http2HpackTableAddType
      → TableFindResult
      → Encoded
  encode_found field state usage add_type found_nothing =
      encode_single_header_field_extended_as_whole field state usage add_type
  encode_found field state usage add_type (found_key index) =
      encode_single_header_field_extended_with_key_from_table field state usage add_type index
  encode_found field state usage add_type (found_all index) =
      map_ok (with_state state) (encode_single_header_field_indexed_header_field index)

  unfoldable pub encode_single_header_field_extended :
      HttpHeaderField
      → HpackDynamicTableState
      → Http2HpackHuffmanUsage
      → Http2HpackTableAddType
      → Bool
      → Encoded
  encode_single_header_field_extended field state usage add_type use_all_tables =
      find_in_tables ext field state use_all_tables >>= encode_found field state usage add_type

  unfoldable pub http2_hpack_compress_data_simple :
      List HttpHeaderField
      → Http2HpackHuffmanUsage
      → Option Bytes
      → Outcome NullBuffer (Option Bytes)
  http2_hpack_compress_data_simple [] usage result = ok result
  http2_hpack_compress_data_simple (field ∷ fields) usage result =
      encode_single_header_field_literal_never_indexed_variant2 ext field usage >>= λ bytes.
      http2_hpack_compress_data_simple fields usage (appended result bytes)

  unfoldable pub http2_hpack_compress_data_extended :
      List HttpHeaderField
      → HpackDynamicTableState
      → Http2HpackHuffmanUsage
      → Http2HpackTableAddType
      → Bool
      → Option Bytes
      → Compressed
  http2_hpack_compress_data_extended [] state usage add_type use_all_tables result =
      ok (result, state)
  http2_hpack_compress_data_extended (field ∷ fields) state usage add_type use_all_tables result =
      with_error (λ _. state)
        (encode_single_header_field_extended field state usage add_type use_all_tables)
      >>= λ (bytes, state').
          http2_hpack_compress_data_extended fields state' usage add_type use_all_tables
            (appended result bytes)

  unfoldable pub http2_hpack_compress_data :
      HpackDynamicTableState → List HttpHeaderField → Http2HpackCompressOptions → Compressed
  http2_hpack_compress_data state fields options = elim (options.type) [
    | no_table_usage ↦
        map_ok (λ result. (result, state))
          (with_error (λ _. state)
            (http2_hpack_compress_data_simple fields options.huffman_usage none))
    | static_table_usage ↦
        http2_hpack_compress_data_extended fields state options.huffman_usage options.table_add_type
          false none
    | all_tables_usage ↦
        http2_hpack_compress_data_extended fields state options.huffman_usage options.table_add_type
          true none
  ]
