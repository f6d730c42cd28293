-- ===== src/Hpack/Decompress/Safe.antt =====
-- http2_hpack_decompress_data of src/http/hpack.c on any input.
use my_simple_c_http_server.Prelude.{
  ℕ, zero, suc, ◌-◌, ◌^◌, ◌≤◌, ◌<◌, ◌≡◌, Bool, true, not, [], ◌∷◌, Option, none, some, bit_and, ltb,
  leb, ◌==◌, Bytes, length, length-drop, drop, take, arith, Option-cases, inl, inr, Outcome,
  with_error, map_ok, Ensures, Ensures-bind, Ensures-map_ok, Ensures-with_error, Ensures-mono,
  Ensures-if, get_elem?,
}
use my_simple_c_http_server.Hpack.Types.{Tstr, HpackHeaderDynamicEntry, External, null_entry}
use my_simple_c_http_server.Hpack.Integer.{decode_hpack_variable_integer}
use my_simple_c_http_server.Hpack.Integer.Decode.{decode-Ensures}
use my_simple_c_http_server.Hpack.DynamicTable.{size, at}
use my_simple_c_http_server.Hpack.TableState.{HpackDynamicTableState, IsSized}
use my_simple_c_http_server.Hpack.TableState.Insert.{
  insert_entry-InsertedEntry, set_hpack_state_setting-Resized,
}
use my_simple_c_http_server.Hpack.Huffman.{decode_bytes_huffman}
use my_simple_c_http_server.Hpack.Huffman.Ends.{IsDecodeError, decode_bytes_huffman-Ensures}
use my_simple_c_http_server.Hpack.Decompress.{
  GenericError, generic, of_option, hpack_get_table_entry_at, field_of,
  parse_hpack_indexed_header_field, literal_bytes, parse_literal_string_value, parse_name,
  parse_value, parse_literal_field, parse_hpack_literal_header_field_with_incremental_indexing,
  parse_hpack_dynamic_table_size_update, DecompressError, Decoder, decode_field, decode_fields,
  http2_hpack_decompress_data,
}

-- The result leaves at most `n` bytes, and `P` holds of it.
abbrev Leaves : {A : Type 0} → ℕ → (A → Type 0) → A × Bytes → Type 0
Leaves n P (a, rest) = (length rest ≤ n) × P a

abbrev Any : {A : Type 0} → A → Type 0
Any _ = Unit

integer_Leaves :
    (p : ℕ) (byte : ℕ) (bytes : Bytes)
    → p ≤ 8
    → Ensures Any
        (Leaves (length bytes) (λ v. v < 2 ^ 34))
        (with_error (λ _. generic) (decode_hpack_variable_integer p (byte ∷ bytes)))
integer_Leaves p byte bytes hp =
    Ensures-with_error Any Any _ (decode_hpack_variable_integer p (byte ∷ bytes)) (λ _. generic)
      (Ensures-mono Any Any _ _ (decode_hpack_variable_integer p (byte ∷ bytes))
        (decode-Ensures p (byte ∷ bytes) hp) (λ _ _. tt)
        (λ (v, rest) (less, small). (omega arith, small)))
      (λ _ _. tt)

of_option_ends : {A : Type 0} (r : Option A) → Ensures Any Any (of_option r)
of_option_ends none = tt
of_option_ends (some a) = tt

module _ (g : External) (state : HpackDynamicTableState) where
  open g use {static_table, tree}

  entry_ends : (value : ℕ) → Ensures Any Any (hpack_get_table_entry_at g state value)
  unfolding hpack_get_table_entry_at
  entry_ends value =
      Ensures-if Any Any (value == 0) _ _ (λ _. tt)
        λ _.
          Ensures-if Any Any (leb value (length static_table)) _ _
            (λ _. of_option_ends (get_elem? static_table (value - 1)))
            λ _.
              Ensures-if Any Any (leb (size state.dynamic_table) (value - length static_table - 1))
                _ _ (λ _. tt)
                λ _.
                  of_option_ends
                    (at null_entry state.dynamic_table (value - length static_table - 1))

  field_ends : (entry : HpackHeaderDynamicEntry) → Ensures Any Any (field_of g entry)
  unfolding field_of
  field_ends entry = elim (Option-cases entry.value) [ inl e ↦ rw e tt | inr (_, e) ↦ rw e tt ]

  indexed_ends :
      (byte : ℕ) (bytes : Bytes)
      → Ensures Any
          (Leaves (length bytes) Any)
          (parse_hpack_indexed_header_field g state (byte ∷ bytes))
  unfolding parse_hpack_indexed_header_field
  indexed_ends byte bytes =
      Ensures-bind Any (Leaves (length bytes) (λ v. v < 2 ^ 34)) (Leaves (length bytes) Any) _ _
        (integer_Leaves 7 byte bytes (omega arith))
        λ (index, rest) (less, _).
          Ensures-if Any (Leaves (length bytes) Any) (index == 0) _ _ (λ _. tt)
            λ _.
              Ensures-bind Any Any (Leaves (length bytes) Any) _ _
                (Ensures-bind Any Any Any _ _ (entry_ends index) (λ entry _. field_ends entry))
                (λ field _. (less, tt))

  literal_bytes_ends :
      (is_huffman : Bool) (len : ℕ) (bytes : Bytes)
      → Ensures Any (Leaves (length bytes) Any) (literal_bytes g is_huffman len bytes)
  unfolding literal_bytes
  literal_bytes_ends is_huffman len [] = tt
  literal_bytes_ends is_huffman len (b ∷ bytes) =
      let less : length (drop len (b ∷ bytes)) ≤ length (b ∷ bytes) =
        omega (arith, length-drop len (b ∷ bytes)) in
      Ensures-if Any (Leaves (length (b ∷ bytes)) Any) (len == 0) _ _ (λ _. (omega arith, tt))
        λ _.
          Ensures-if Any (Leaves (length (b ∷ bytes)) Any) (ltb (length (b ∷ bytes)) len) _ _
            (λ _. tt)
            λ _.
              Ensures-if Any (Leaves (length (b ∷ bytes)) Any) is_huffman _ _
                (λ _.
                  Ensures-map_ok Any Any (Leaves (length (b ∷ bytes)) Any) _ _
                    (Ensures-with_error IsDecodeError Any Any
                      (decode_bytes_huffman tree (take len (b ∷ bytes))) _
                      (decode_bytes_huffman-Ensures tree (take len (b ∷ bytes))) (λ _ _. tt))
                    (λ _ _. (less, tt)))
                (λ _. (less, tt))

  string_ends :
      (bytes : Bytes) → Ensures Any (Leaves (length bytes) Any) (parse_literal_string_value g bytes)
  unfolding parse_literal_string_value
  string_ends [] = tt
  string_ends (byte ∷ bytes) =
      Ensures-bind Any (Leaves (length bytes) (λ v. v < 2 ^ 34)) (Leaves (suc (length bytes)) Any) _
        _ (integer_Leaves 7 byte bytes (omega arith))
        λ (len, rest) (less, _).
          Ensures-mono Any Any (Leaves (length rest) Any) (Leaves (suc (length bytes)) Any) _
            (literal_bytes_ends (not (bit_and byte 0x80 == 0)) len rest) (λ _ _. tt)
            (λ (s, rest') (less', _). (omega arith, tt))

  name_ends :
      (index : ℕ) (bytes : Bytes)
      → Ensures Any (Leaves (length bytes) Any) (parse_name g state index bytes)
  unfolding parse_name
  name_ends index bytes =
      Ensures-if Any (Leaves (length bytes) Any) (index == 0) _ _ (λ _. string_ends bytes)
        λ _.
          Ensures-bind Any Any (Leaves (length bytes) Any) _ _ (entry_ends index)
            (λ entry _. (omega arith, tt))

  value_ends :
      (key : Tstr) (bytes : Bytes)
      → Ensures Any (Leaves (length bytes) Any) (parse_value g key bytes)
  unfolding parse_value
  value_ends key [] = tt
  value_ends key (b ∷ bytes) =
      Ensures-bind Any (Leaves (length (b ∷ bytes)) Any) (Leaves (length (b ∷ bytes)) Any) _ _
        (string_ends (b ∷ bytes)) (λ (value, rest) less. less)

  literal_ends :
      (p byte : ℕ) (bytes : Bytes)
      → p ≤ 8
      → Ensures Any (Leaves (length bytes) Any) (parse_literal_field g p state (byte ∷ bytes))
  unfolding parse_literal_field
  literal_ends p byte bytes hp =
      Ensures-bind Any (Leaves (length bytes) (λ v. v < 2 ^ 34)) (Leaves (length bytes) Any) _ _
        (integer_Leaves p byte bytes hp)
        λ (index, rest) (less, _).
          Ensures-bind Any (Leaves (length rest) Any) (Leaves (length bytes) Any) _ _
            (name_ends index rest)
            λ (key, rest') (less', _).
              Ensures-mono Any Any (Leaves (length rest') Any) (Leaves (length bytes) Any) _
                (value_ends key rest') (λ _ _. tt)
                (λ (field, rest'') (less'', _). (omega arith, tt))

  module _ (alloc_bounded : (n : ℕ) → g.can_alloc n ≡ true → n ≤ 2 ^ 62)
      (sized : IsSized state) where
    incremental_ends :
        (byte : ℕ) (bytes : Bytes)
        → Ensures Any
            (Leaves (length bytes) (λ r. IsSized r.1))
            (parse_hpack_literal_header_field_with_incremental_indexing g state (byte ∷ bytes))
    unfolding parse_hpack_literal_header_field_with_incremental_indexing
    incremental_ends byte bytes =
        Ensures-bind Any (Leaves (length bytes) Any) (Leaves (length bytes) (λ r. IsSized r.1)) _ _
          (literal_ends 6 byte bytes (omega arith))
          λ (field, rest) (less, _).
            let entry : HpackHeaderDynamicEntry = record { key = field.key; value = field.value } in
            let (result, runs, (ends, _, _)) =
              insert_entry-InsertedEntry g.can_alloc alloc_bounded entry state sized in
            rw runs (less, ends)

    size_update_ends :
        (byte : ℕ) (bytes : Bytes)
        → Ensures Any
            (Leaves (length bytes) IsSized)
            (parse_hpack_dynamic_table_size_update g state (byte ∷ bytes))
    unfolding parse_hpack_dynamic_table_size_update
    size_update_ends byte bytes =
        Ensures-bind Any (Leaves (length bytes) (λ v. v < 2 ^ 34)) (Leaves (length bytes) IsSized) _
          _ (integer_Leaves 5 byte bytes (omega arith))
          λ (new_size, rest) (less, small).
            let (result, runs, (ends, _, _)) =
              set_hpack_state_setting-Resized state sized new_size (omega arith) in
            rw runs (less, ends)

-- The state is sized, also where an error is returned.
abbrev pub SizedError : DecompressError × HpackDynamicTableState → Type 0
SizedError (_, state) = IsSized state

abbrev pub SizedDecoder : Decoder → Type 0
SizedDecoder d = IsSized d.state

module _ (g : External) (alloc_bounded : (n : ℕ) → g.can_alloc n ≡ true → n ≤ 2 ^ 62) where
  -- One field: its parser's result becomes the decoder's, its error keeps the state.
  step_ends :
      {A : Type 0} (P : A → Type 0) (d : Decoder) (sized : SizedDecoder d) (n : ℕ)
      (e : DecompressError) (parsed : Outcome GenericError (A × Bytes))
      (f : A × Bytes → Decoder × Bytes)
      → Ensures Any (Leaves n P) parsed
      → ((r : A × Bytes) → Leaves n P r → Leaves n SizedDecoder (f r))
      → Ensures SizedError
          (Leaves n SizedDecoder)
          (map_ok f (with_error (λ _. (e, d.state)) parsed))
  step_ends P d sized n e parsed f h k =
      Ensures-map_ok SizedError (Leaves n P) (Leaves n SizedDecoder) _ f
        (Ensures-with_error Any SizedError (Leaves n P) parsed _ h (λ _ _. sized)) k

  decode_field_ends :
      (d : Decoder) (byte : ℕ) (bytes : Bytes)
      → SizedDecoder d
      → Ensures SizedError (Leaves (length bytes) SizedDecoder) (decode_field g d byte bytes)
  unfolding decode_field
  decode_field_ends d byte bytes sized =
      Ensures-if SizedError (Leaves (length bytes) SizedDecoder) (not (bit_and byte 0x80 == 0)) _ _
        (λ _.
          step_ends Any d sized (length bytes) _ _ _ (indexed_ends g d.state byte bytes)
            (λ _ (less, _). (less, sized)))
        λ _.
          Ensures-if SizedError (Leaves (length bytes) SizedDecoder) (bit_and byte 0xC0 == 0x40) _ _
            (λ _.
              step_ends (λ r. IsSized r.1) d sized (length bytes) _ _ _
                (incremental_ends g d.state alloc_bounded sized byte bytes) (λ _ h. h))
            λ _.
              Ensures-if SizedError (Leaves (length bytes) SizedDecoder) (bit_and byte 0xE0 == 0x20)
                _ _
                (λ _.
                  step_ends IsSized d sized (length bytes) _ _ _
                    (size_update_ends g d.state alloc_bounded sized byte bytes) (λ _ h. h))
                λ _.
                  Ensures-if SizedError (Leaves (length bytes) SizedDecoder)
                    (bit_and byte 0xF0 == 0x10) _ _
                    (λ _.
                      step_ends Any d sized (length bytes) _ _ _
                        (literal_ends g d.state 4 byte bytes (omega arith))
                        (λ _ (less, _). (less, sized)))
                    λ _.
                      step_ends Any d sized (length bytes) _ _ _
                        (literal_ends g d.state 4 byte bytes (omega arith))
                        (λ _ (less, _). (less, sized))

  decode_fields_ends :
      (fuel : ℕ) (d : Decoder) (bytes : Bytes)
      → length bytes ≤ fuel
      → SizedDecoder d
      → Ensures SizedError SizedDecoder (decode_fields g fuel d bytes)
  unfolding decode_fields
  decode_fields_ends fuel d [] enough sized = sized
  decode_fields_ends zero d (byte ∷ bytes) enough sized = omega arith
  decode_fields_ends (suc fuel) d (byte ∷ bytes) enough sized =
      Ensures-bind SizedError (Leaves (length bytes) SizedDecoder) SizedDecoder _ _
        (decode_field_ends d byte bytes sized)
        λ (d', rest) (less, sized'). decode_fields_ends fuel d' rest (omega arith) sized'

  -- On a sized state the decoder returns on every input, or runs into undefined behaviour; its
  -- loop takes no more rounds than the input has bytes. Where it returns, with headers or with an
  -- error, the state that is left is sized.
  pub decompress-Ensures :
      (state : HpackDynamicTableState) (input : Bytes)
      → IsSized state
      → Ensures SizedError SizedDecoder (http2_hpack_decompress_data g state input)
  unfolding http2_hpack_decompress_data
  decompress-Ensures state input sized =
      decode_fields_ends (length input) _ input (omega arith) sized
