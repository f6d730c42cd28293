-- ===== src/Hpack/Decompress.antt =====
-- The HPACK decoder of src/http/hpack.c, as a release build has it (NDEBUG: null values of the
-- static table are refused, HPACK_STRICT_ENTRY_DECODING). The bytes that `*pos` has not passed are a
-- list, and pushing a header does not fail.
pub mod Safe
pub mod Literal
pub mod Kinds
pub mod Entry
use my_simple_c_http_server.Prelude.{
  ℕ, zero, suc, ◌+◌, ◌-◌, ◌%◌, Bool, true, false, not, ◌&&◌, List, [], ◌∷◌, ◌++◌, Option, none,
  some, bit_and, ltb, leb, ◌==◌, if◌then◌else◌, Bytes, length, get_elem?, take, drop, Outcome, ok,
  error, fault, stuck, ◌>>=◌, with_error, map_ok,
}
use my_simple_c_http_server.Hpack.Types.{
  Tstr, tstr_init, HttpHeaderField, HpackHeaderDynamicEntry, null_entry, External,
}
use my_simple_c_http_server.Hpack.Integer.{decode_hpack_variable_integer}
use my_simple_c_http_server.Hpack.DynamicTable.{size, at}
use my_simple_c_http_server.Hpack.TableState.{
  HpackDynamicTableState, insert_entry_into_dynamic_table, set_hpack_state_setting,
}
use my_simple_c_http_server.Hpack.Huffman.{decode_bytes_huffman}

-- The one error of `GenericResult`.
pub data GenericError : Type 0 where
  generic : GenericError

abbrev pub Parsed : Type 0 → Type 0
Parsed A = Outcome GenericError (A × Bytes)

abbrev pub any_error : {E A : Type 0} → Outcome E A → Outcome GenericError A
any_error = with_error (λ _. generic)

abbrev pub of_option : {A : Type 0} → Option A → Outcome GenericError A
of_option none = error generic
of_option (some a) = ok a

module _ (g : External) where
  open g use {static_table, tree, can_alloc}

  -- The null result is the error.
  pub hpack_get_table_entry_at :
      HpackDynamicTableState → ℕ → Outcome GenericError HpackHeaderDynamicEntry
  hpack_get_table_entry_at state value =
      let dynamic_index = value - length static_table - 1 in
      if value == 0
      then error generic
      else if leb value (length static_table)
      then of_option (get_elem? static_table (value - 1))
      else if leb (size state.dynamic_table) dynamic_index
      then error generic
      else of_option (at null_entry state.dynamic_table dynamic_index)

  -- A static entry may have no value, and then is no whole field.
  unfoldable pub field_of : HpackHeaderDynamicEntry → Outcome GenericError HttpHeaderField
  field_of entry = elim (entry.value) [
    | none ↦ error generic
    | some _ ↦ ok (record { key = entry.key; value = entry.value })
  ]

  unfoldable pub parse_hpack_indexed_header_field :
      HpackDynamicTableState → Bytes → Parsed HttpHeaderField
  parse_hpack_indexed_header_field state bytes =
      any_error (decode_hpack_variable_integer 7 bytes) >>= λ (index, rest).
      if index == 0
      then error generic
      else hpack_get_table_entry_at state index >>= field_of >>= λ field. ok (field, rest)

  -- The string behind its length.
  pub literal_bytes : Bool → ℕ → Bytes → Parsed Tstr
  literal_bytes is_huffman len [] = error generic
  literal_bytes is_huffman len (b ∷ bytes) =
      if len == 0
      then ok (tstr_init, b ∷ bytes)
      else if ltb (length (b ∷ bytes)) len
      then error generic
      else if is_huffman
      then map_ok (λ result. (some result, drop len (b ∷ bytes)))
          (any_error (decode_bytes_huffman tree (take len (b ∷ bytes))))
      else ok (some (take len (b ∷ bytes)), drop len (b ∷ bytes))

  pub parse_literal_string_value : Bytes → Parsed Tstr
  parse_literal_string_value [] = error generic
  parse_literal_string_value (byte ∷ bytes) =
      any_error (decode_hpack_variable_integer 7 (byte ∷ bytes)) >>= λ (len, rest).
      literal_bytes (not (bit_and byte 0x80 == 0)) len rest

  -- The name is a literal, or the key of a table entry.
  pub parse_name : HpackDynamicTableState → ℕ → Bytes → Parsed Tstr
  parse_name state index bytes =
      if index == 0
      then parse_literal_string_value bytes
      else hpack_get_table_entry_at state index >>= λ entry. ok (entry.key, bytes)

  -- The value, which must not be the end of the input.
  pub parse_value : Tstr → Bytes → Parsed HttpHeaderField
  parse_value key [] = error generic
  parse_value key (b ∷ bytes) = parse_literal_string_value (b ∷ bytes) >>= λ (value, rest).
      ok (record { key = key; value = value }, rest)

  -- What the three literal fields share; they differ in the prefix of the index.
  pub parse_literal_field : ℕ → HpackDynamicTableState → Bytes → Parsed HttpHeaderField
  parse_literal_field prefix_bits state bytes =
      any_error (decode_hpack_variable_integer prefix_bits bytes) >>= λ (index, rest).
      parse_name state index rest >>= λ (key, rest'). parse_value key rest'

  abbrev pub parse_hpack_literal_header_field_never_indexed :
      HpackDynamicTableState → Bytes → Parsed HttpHeaderField
  parse_hpack_literal_header_field_never_indexed = parse_literal_field 4

  abbrev pub parse_hpack_literal_header_field_without_indexing :
      HpackDynamicTableState → Bytes → Parsed HttpHeaderField
  parse_hpack_literal_header_field_without_indexing = parse_literal_field 4

  abbrev pub of_fuel : {A : Type 0} → Option A → Outcome GenericError A
  of_fuel none = stuck
  of_fuel (some a) = ok a

  unfoldable pub parse_hpack_literal_header_field_with_incremental_indexing :
      HpackDynamicTableState → Bytes → Parsed (HttpHeaderField × HpackDynamicTableState)
  parse_hpack_literal_header_field_with_incremental_indexing state bytes =
      parse_literal_field 6 state bytes >>= λ (field, rest).
      of_fuel (
        insert_entry_into_dynamic_table can_alloc state
          (record { key = field.key; value = field.value }))
      >>= λ state'. ok ((field, state'), rest)

  pub parse_hpack_dynamic_table_size_update :
      HpackDynamicTableState → Bytes → Parsed HpackDynamicTableState
  parse_hpack_dynamic_table_size_update state bytes =
      any_error (decode_hpack_variable_integer 5 bytes) >>= λ (new_size, rest).
      of_fuel (set_hpack_state_setting state new_size) >>= λ state'. ok (state', rest)

-- The messages of the main loop.
pub data DecompressError : Type 0 where
  in_indexed in_incremental in_size_update in_never_indexed in_without_indexing : DecompressError

-- What the main loop changes.
pub record Decoder : Type 0 where
  pub state : HpackDynamicTableState
  pub headers : List HttpHeaderField

-- An error leaves the state as the fields before it made it.
abbrev pub Decoded : Type 0 → Type 0
Decoded A = Outcome (DecompressError × HpackDynamicTableState) A

module _ (g : External) where
  abbrev pub failing : {A : Type 0} → DecompressError → Decoder → Outcome GenericError A → Decoded A
  failing e d = with_error (λ _. (e, d.state))

  abbrev pub push : Decoder → HttpHeaderField × Bytes → Decoder × Bytes
  push d (field, rest) = (record d { headers = d.headers ++ field ∷ [] }, rest)

  abbrev pub push_in :
      Decoder → (HttpHeaderField × HpackDynamicTableState) × Bytes → Decoder × Bytes
  push_in d ((field, state'), rest) =
      (record { state = state'; headers = d.headers ++ field ∷ [] }, rest)

  abbrev pub resize_to : Decoder → HpackDynamicTableState × Bytes → Decoder × Bytes
  resize_to d (state', rest) = (record d { state = state' }, rest)

  -- One round of `while(pos < size)`, at the byte `data[pos]`.
  pub decode_field : Decoder → ℕ → Bytes → Decoded (Decoder × Bytes)
  decode_field d byte bytes =
      if not (bit_and byte 0x80 == 0)
      then map_ok (push d)
          (failing in_indexed d (parse_hpack_indexed_header_field g d.state (byte ∷ bytes)))
      else if bit_and byte 0xC0 == 0x40
      then map_ok (push_in d) (
          failing in_incremental d
            (parse_hpack_literal_header_field_with_incremental_indexing g d.state (byte ∷ bytes)))
      else if bit_and byte 0xE0 == 0x20
      then map_ok (resize_to d) (
          failing in_size_update d (parse_hpack_dynamic_table_size_update g d.state (byte ∷ bytes)))
      else if bit_and byte 0xF0 == 0x10
      then map_ok (push d) (
          failing in_never_indexed d
            (parse_hpack_literal_header_field_never_indexed g d.state (byte ∷ bytes)))
      else map_ok (push d) (
          failing in_without_indexing d
            (parse_hpack_literal_header_field_without_indexing g d.state (byte ∷ bytes)))

  unfoldable pub decode_fields : ℕ → Decoder → Bytes → Decoded Decoder
  decode_fields fuel d [] = ok d
  decode_fields zero d (byte ∷ bytes) = stuck
  decode_fields (suc fuel) d (byte ∷ bytes) =
      decode_field d byte bytes >>= λ (d', rest). decode_fields fuel d' rest

  -- `http2_hpack_decompress_data_impl`. Each round takes a byte at least.
  unfoldable pub http2_hpack_decompress_data : HpackDynamicTableState → Bytes → Decoded Decoder
  http2_hpack_decompress_data state input =
      decode_fields (length input) (record { state = state; headers = [] }) input
