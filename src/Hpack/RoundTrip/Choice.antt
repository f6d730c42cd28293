-- ===== src/Hpack/RoundTrip/Choice.antt =====
-- encode_single_header_field_extended of src/http/hpack.c, by the representation that it chooses.
use my_simple_c_http_server.Prelude.{
  ℕ, ◌+◌, ◌^◌, ◌≤◌, ◌<◌, ◌≡◌, sym, ap, ◌∙◌, Bool, true, [], ◌∷◌, ◌++◌, arith, Bytes, length,
  Bool-cases, inl, inr, ok, map_ok,
}
use my_simple_c_http_server.Hpack.Types.{Tstr, HttpHeaderField, External}
use my_simple_c_http_server.Hpack.Integer.{decode_hpack_variable_integer}
use my_simple_c_http_server.Hpack.Integer.Encoding.{
  IsFlag, encoding, encoding_first, length-encoding_small,
}
use my_simple_c_http_server.Hpack.Integer.RoundTrip.{decode-encoding}
use my_simple_c_http_server.Hpack.TableState.{HpackDynamicTableState, IsSized}
use my_simple_c_http_server.Hpack.Compress.{
  Http2HpackTableAddType, never, variant1, variant2, variant1_no_huffman, variant2_no_huffman,
  encode_single_header_field_literal_never_indexed_variant1,
  encode_single_header_field_literal_never_indexed_variant2,
  encode_single_header_field_literal_incremental_indexing_variant1,
  encode_single_header_field_literal_incremental_indexing_variant2,
}
use my_simple_c_http_server.Hpack.Compress.Literal.{
  string_literal, variant1_no_huffman_ok, variant2_no_huffman_ok, write_integer_ok, finish_ok,
}
use my_simple_c_http_server.Hpack.Compress.Lookup.{
  TableFindResult, found_nothing, found_key, found_all,
}
use my_simple_c_http_server.Hpack.Compress.Lookup.Found.{IsLookup, IsFound, find_in_tables_sound}
use my_simple_c_http_server.Hpack.Compress.Fields.{
  should_add_header_to_table, encode_single_header_field_indexed_header_field,
  encode_single_header_field_extended_as_whole,
  encode_single_header_field_extended_with_key_from_table, encode_found,
  encode_single_header_field_extended,
}
use my_simple_c_http_server.Hpack.Decompress.{hpack_get_table_entry_at}
use my_simple_c_http_server.Hpack.RoundTrip.{IsPlain, Carries}
use my_simple_c_http_server.Hpack.RoundTrip.Fields.{
  IsFlag-never, IsFlag-incremental, IsFlag-indexed, indexed_Reads, never_Carries, indexed_Carries,
  incremental_Carries, value_literal, field_eq, key_bytes_parse, index_bytes_parse,
}

module _ (ext : External) (alloc_bounded : (n : ℕ) → ext.can_alloc n ≡ true → n ≤ 2 ^ 62)
    (state : HpackDynamicTableState) (sized : IsSized state) (field : HttpHeaderField)
    (plain : IsPlain field) where
  variant2_bytes :
      {p flag : ℕ} (f : IsFlag p flag)
      → variant2_no_huffman ext flag field
        ≡ ok (flag ∷ (string_literal plain.key_bytes ++ value_literal ext state sized field plain))
  variant2_bytes {flag} f =
      ap (variant2_no_huffman ext flag) (sym (field_eq ext state sized field plain))
      ∙ variant2_no_huffman_ok ext f plain.value_bytes plain.value_small plain.key_bytes
          plain.key_small

  variant1_bytes :
      {p flag : ℕ} (f : IsFlag p flag) (i : ℕ)
      → i < 2 ^ 31
      → variant1_no_huffman ext flag p i field.value
        ≡ ok (encoding flag i p ++ value_literal ext state sized field plain)
  variant1_bytes f i hi =
      rw plain.has_value (variant1_no_huffman_ok ext f plain.value_bytes plain.value_small i hi)

  whole_Carries :
      (add_type : Http2HpackTableAddType)
      → Carries ext state field
          (encode_single_header_field_extended_as_whole ext field state never add_type)
  unfolding encode_single_header_field_extended_as_whole
      encode_single_header_field_literal_incremental_indexing_variant2
      encode_single_header_field_literal_never_indexed_variant2 variant2
  whole_Carries add_type = elim (Bool-cases (should_add_header_to_table ext field add_type)) [
    | inl add ↦ rw add (
        incremental_Carries ext state sized field alloc_bounded _ 0x40 _
          (variant2_bytes IsFlag-incremental) (omega arith) (omega arith)
          (key_bytes_parse ext state sized field plain IsFlag-incremental))
    | inr leave ↦ rw leave (
        never_Carries ext state sized field _ 0x10 _ (variant2_bytes IsFlag-never) (omega arith)
          (omega arith) (key_bytes_parse ext state sized field plain IsFlag-never))
  ]

  module _ (i : ℕ) (pos : 0 < i) (hi : i < 2 ^ 31) where
    key_Carries :
        (value : Tstr)
        → hpack_get_table_entry_at ext state i ≡ ok (record { key = field.key; value = value })
        → (add_type : Http2HpackTableAddType)
        → Carries ext state field (
            encode_single_header_field_extended_with_key_from_table ext field state never add_type
              i)
    unfolding encode_single_header_field_extended_with_key_from_table
        encode_single_header_field_literal_incremental_indexing_variant1
        encode_single_header_field_literal_never_indexed_variant1 variant1
    key_Carries value found add_type =
        elim (Bool-cases (should_add_header_to_table ext field add_type)) [
          | inl add ↦
              let (b, bytes, e, low, high) = encoding_first IsFlag-incremental i in
              rw add (
                incremental_Carries ext state sized field alloc_bounded _ b
                  (bytes ++ value_literal ext state sized field plain)
                  (variant1_bytes IsFlag-incremental i hi
                    ∙ ap (λ l. ok (l ++ value_literal ext state sized field plain)) e)
                  low high
                  (rw e at (
                    index_bytes_parse ext state sized field plain IsFlag-incremental i value pos hi
                      found)))
          | inr leave ↦
              let (b, bytes, e, low, high) = encoding_first IsFlag-never i in
              rw leave (
                never_Carries ext state sized field _ b
                  (bytes ++ value_literal ext state sized field plain)
                  (variant1_bytes IsFlag-never i hi
                    ∙ ap (λ l. ok (l ++ value_literal ext state sized field plain)) e)
                  low high
                  (rw e at (
                    index_bytes_parse ext state sized field plain IsFlag-never i value pos hi
                      found)))
        ]

    indexed_bytes : encode_single_header_field_indexed_header_field i ≡ ok (encoding 0x80 i 7)
    unfolding encode_single_header_field_indexed_header_field
    indexed_bytes = rw (write_integer_ok 10 [] IsFlag-indexed true i hi (omega arith)) (
        finish_ok 10 (encoding 0x80 i 7) (omega (arith, length-encoding_small IsFlag-indexed i hi)))

    all_Carries :
        hpack_get_table_entry_at ext state i ≡ ok (record { key = field.key; value = field.value })
        → Carries ext state field
            (map_ok (λ bytes. (bytes, state)) (encode_single_header_field_indexed_header_field i))
    all_Carries found =
        let (b, bytes, e, low, high) = encoding_first IsFlag-indexed i in
        let decodes : (rest : Bytes)
            → decode_hpack_variable_integer 7 (b ∷ (bytes ++ rest)) ≡ ok (i, rest) =
          λ rest. rw e at (decode-encoding IsFlag-indexed i rest (omega arith)) in
        indexed_Carries ext state sized field _ b bytes (indexed_bytes ∙ ap ok e) (
          indexed_Reads ext state sized field b bytes i plain.value_bytes low high decodes pos found
            plain.has_value)

  found_Carries :
      (r : TableFindResult)
      → length ext.static_table + state.dynamic_table.count < 2 ^ 31
      → IsFound ext field state r
      → (add_type : Http2HpackTableAddType)
      → Carries ext state field (encode_found ext field state never add_type r)
  unfolding encode_found
  found_Carries found_nothing h sound add_type = whole_Carries add_type
  found_Carries (found_key i) h (pos, low, (value, found)) add_type =
      key_Carries i pos (omega arith) value found add_type
  found_Carries (found_all i) h (pos, low, found) add_type = all_Carries i pos (omega arith) found

  pub extended_Carries :
      IsLookup ext
      → length ext.static_table + state.dynamic_table.count < 2 ^ 31
      → (add_type : Http2HpackTableAddType) (use_all_tables : Bool)
      → Carries ext state field
          (encode_single_header_field_extended ext field state never add_type use_all_tables)
  unfolding encode_single_header_field_extended
  extended_Carries lookup h add_type use_all_tables =
      let (r, finds, sound) = find_in_tables_sound ext lookup field state use_all_tables in
      rw finds (found_Carries r h sound add_type)

  -- The representation that is chosen without tables.
  pub literal_Carries : Carries ext state field (
      map_ok
        (λ bytes. (bytes, state))
        (encode_single_header_field_literal_never_indexed_variant2 ext field never))
  unfolding encode_single_header_field_literal_never_indexed_variant2 variant2
  literal_Carries =
      never_Carries ext state sized field _ 0x10 _ (variant2_bytes IsFlag-never) (omega arith)
        (omega arith) (key_bytes_parse ext state sized field plain IsFlag-never)
