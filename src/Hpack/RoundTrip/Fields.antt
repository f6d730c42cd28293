-- ===== src/Hpack/RoundTrip/Fields.antt =====
-- One field in each of the representations that the encoder of src/http/hpack.c chooses from.
use my_simple_c_http_server.Prelude.{
  ℕ, ◌^◌, ◌≤◌, ◌<◌, ◌≡◌, refl, sym, ap, ◌∙◌, true, [], ◌∷◌, ◌++◌, append_assoc, some, arith, Bytes,
  ok, ◌>>=◌, map_ok,
}
use my_simple_c_http_server.Hpack.Types.{Tstr, HttpHeaderField, HpackHeaderDynamicEntry, External}
use my_simple_c_http_server.Hpack.Integer.{decode_hpack_variable_integer}
use my_simple_c_http_server.Hpack.Integer.Encoding.{IsFlag, encoding}
use my_simple_c_http_server.Hpack.TableState.{
  HpackDynamicTableState, IsSized, insert_entry_into_dynamic_table,
}
use my_simple_c_http_server.Hpack.TableState.Count.{insert_entry-count}
use my_simple_c_http_server.Hpack.Compress.{then_insert, Buffer}
use my_simple_c_http_server.Hpack.Compress.Literal.{string_literal}
use my_simple_c_http_server.Hpack.Decompress.{
  parse_hpack_indexed_header_field, field_of,
  parse_hpack_literal_header_field_with_incremental_indexing, parse_literal_field,
  hpack_get_table_entry_at,
}
use my_simple_c_http_server.Hpack.Decompress.Literal.{
  nonzero, parse_literal_key, parse_literal_index,
}
use my_simple_c_http_server.Hpack.Decompress.Kinds.{
  decode_indexed, decode_incremental, decode_never,
}
use my_simple_c_http_server.Hpack.RoundTrip.{IsPlain, Reads, Carries}

pub IsFlag-never : IsFlag 4 0x10
IsFlag-never = record { narrow = omega arith; above = omega arith; clear = refl }

pub IsFlag-incremental : IsFlag 6 0x40
IsFlag-incremental = record { narrow = omega arith; above = omega arith; clear = refl }

pub IsFlag-indexed : IsFlag 7 0x80
IsFlag-indexed = record { narrow = omega arith; above = omega arith; clear = refl }

abbrev pub field_with : Tstr → Tstr → HttpHeaderField
field_with key value = record { key = key; value = value }

module _ (ext : External) (state : HpackDynamicTableState) (sized : IsSized state)
    (field : HttpHeaderField) where
  -- Bytes that the literal parser of a prefix reads the field from.
  abbrev pub ParsesAs : ℕ → Bytes → Type 0
  ParsesAs p bytes =
      (rest : Bytes) → parse_literal_field ext p state (bytes ++ rest) ≡ ok (field, rest)

  never_Reads :
      (b : ℕ) (bytes : Bytes)
      → 16 ≤ b
      → b < 32
      → ParsesAs 4 (b ∷ bytes)
      → Reads ext state field b bytes state
  never_Reads b bytes l h parses headers rest = rw (
    decode_never ext (record { state = state; headers = headers }) b (bytes ++ rest) l h,
    parses rest,
  )

  incremental_Reads :
      (b : ℕ) (bytes : Bytes) (after : HpackDynamicTableState)
      → 64 ≤ b
      → b < 128
      → ParsesAs 6 (b ∷ bytes)
      → insert_entry_into_dynamic_table ext.can_alloc state
          (record { key = field.key; value = field.value })
        ≡ some after
      → Reads ext state field b bytes after
  unfolding parse_hpack_literal_header_field_with_incremental_indexing
  incremental_Reads b bytes after l h parses inserts headers rest = rw (
    decode_incremental ext (record { state = state; headers = headers }) b (bytes ++ rest) l h,
    parse_hpack_literal_header_field_with_incremental_indexing,
    parses rest,
    inserts,
  )

  pub indexed_Reads :
      (b : ℕ) (bytes : Bytes) (i : ℕ) (v : Bytes)
      → 128 ≤ b
      → b < 256
      → ((rest : Bytes) → decode_hpack_variable_integer 7 (b ∷ (bytes ++ rest)) ≡ ok (i, rest))
      → 0 < i
      → hpack_get_table_entry_at ext state i ≡ ok (record { key = field.key; value = field.value })
      → field.value ≡ some v
      → Reads ext state field b bytes state
  unfolding parse_hpack_indexed_header_field field_of
  indexed_Reads b bytes i v l h decodes pos found has_value headers rest =
      rw
        (
          decode_indexed ext (record { state = state; headers = headers }) b (bytes ++ rest) l h,
          parse_hpack_indexed_header_field,
          decodes rest,
          nonzero i pos,
          found,
          field_of,
          has_value,
        )
        (ap
          (λ value. ok (
            record {
              state = state;
              headers = headers ++ record { key = field.key; value = value } ∷ [];
            },
            rest,
          ))
          has_value)

  -- The encoder's table insertion, which the decoder repeats.
  abbrev entry : HpackHeaderDynamicEntry
  entry = record { key = field.key; value = field.value }

  pub never_Carries :
      (buffer : Buffer) (b : ℕ) (bytes : Bytes)
      → buffer ≡ ok (b ∷ bytes)
      → 16 ≤ b
      → b < 32
      → ParsesAs 4 (b ∷ bytes)
      → Carries ext state field (map_ok (λ bytes. (bytes, state)) buffer)
  never_Carries buffer b bytes e l h parses = record {
    first = b;
    others = bytes;
    after = state;
    encodes = rw e;
    sized = sized;
    counts = omega arith;
    reads = never_Reads b bytes l h parses;
  }

  pub indexed_Carries :
      (buffer : Buffer) (b : ℕ) (bytes : Bytes)
      → buffer ≡ ok (b ∷ bytes)
      → Reads ext state field b bytes state
      → Carries ext state field (map_ok (λ bytes. (bytes, state)) buffer)
  indexed_Carries buffer b bytes e reads = record {
    first = b;
    others = bytes;
    after = state;
    encodes = rw e;
    sized = sized;
    counts = omega arith;
    reads = reads;
  }

  module _ (alloc_bounded : (n : ℕ) → ext.can_alloc n ≡ true → n ≤ 2 ^ 62) where
    pub incremental_Carries :
        (buffer : Buffer) (b : ℕ) (bytes : Bytes)
        → buffer ≡ ok (b ∷ bytes)
        → 64 ≤ b
        → b < 128
        → ParsesAs 6 (b ∷ bytes)
        → Carries ext state field (buffer >>= then_insert ext state field)
    unfolding then_insert
    incremental_Carries buffer b bytes e l h parses =
        let (after, inserts, after_sized, counts) =
          insert_entry-count ext.can_alloc alloc_bounded entry state sized in
        record {
          first = b;
          others = bytes;
          after = after;
          encodes = rw (e, then_insert, inserts);
          sized = after_sized;
          counts = omega (arith, counts);
          reads = incremental_Reads b bytes after l h parses inserts;
        }

  module _ (plain : IsPlain field) where
    abbrev pub value_literal : Bytes
    value_literal = string_literal plain.value_bytes

    pub field_eq : field_with (some plain.key_bytes) (some plain.value_bytes) ≡ field
    field_eq =
        ap (λ k. field_with k (some plain.value_bytes)) (sym plain.has_key)
        ∙ ap (field_with field.key) (sym plain.has_value)

    -- The bytes of a literal field, with its key and with the index of its key.
    module _ {p flag : ℕ} (f : IsFlag p flag) where
      pub key_bytes_parse :
          ParsesAs p (encoding flag 0 p ++ (string_literal plain.key_bytes ++ value_literal))
      key_bytes_parse rest =
          ap (parse_literal_field ext p state) (
            append_assoc (encoding flag 0 p) (string_literal plain.key_bytes ++ value_literal) rest
            ∙ ap (λ l. encoding flag 0 p ++ l)
                (append_assoc (string_literal plain.key_bytes) value_literal rest))
          ∙ parse_literal_key ext state f plain.value_bytes rest plain.value_small plain.value_some
              plain.key_bytes plain.key_small
          ∙ ap (λ field. ok (field, rest)) field_eq

      pub index_bytes_parse :
          (i : ℕ) (value : Tstr)
          → 0 < i
          → i < 2 ^ 31
          → hpack_get_table_entry_at ext state i ≡ ok (record { key = field.key; value = value })
          → ParsesAs p (encoding flag i p ++ value_literal)
      index_bytes_parse i value pos hi found rest =
          ap (parse_literal_field ext p state) (append_assoc (encoding flag i p) value_literal rest)
          ∙ parse_literal_index ext state f plain.value_bytes rest plain.value_small
              plain.value_some i _ pos hi found
          ∙ ap (λ v. ok (field_with field.key v, rest)) (sym plain.has_value)
