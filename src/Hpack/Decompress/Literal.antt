-- ===== src/Hpack/Decompress/Literal.antt =====
-- What the decoder of src/http/hpack.c makes of a literal field without Huffman coding.
use my_simple_c_http_server.Prelude.{
  ℕ, ◌^◌, ◌<◌, ◌≡◌, refl, false, not, [], ◌∷◌, ◌++◌, append_assoc, some, bit_and, ◌==◌, arith,
  Bytes, take-length_append, drop-length_append, length, length-append, ok, error,
}
use my_simple_c_http_server.Prelude.Bits.{top_bit}
use my_simple_c_http_server.Hpack.Types.{Tstr, HpackHeaderDynamicEntry, External}
use my_simple_c_http_server.Hpack.Integer.{decode_hpack_variable_integer}
use my_simple_c_http_server.Hpack.Integer.Encoding.{IsFlag, encoding, encoding_first}
use my_simple_c_http_server.Hpack.Integer.RoundTrip.{decode-encoding}
use my_simple_c_http_server.Hpack.TableState.{HpackDynamicTableState}
use my_simple_c_http_server.Hpack.Compress.Literal.{string_literal, IsFlag-7}
use my_simple_c_http_server.Hpack.Decompress.{
  generic, hpack_get_table_entry_at, literal_bytes, parse_literal_string_value, parse_name,
  parse_value, parse_literal_field,
}

pub nonzero : (n : ℕ) → 0 < n → (n == 0) ≡ false
nonzero n h = ground arith

module _ (g : External) where
  -- A string of `s`, where bytes are left.
  literal_bytes_plain :
      (s rest : Bytes)
      → 0 < length (s ++ rest)
      → literal_bytes g false (length s) (s ++ rest) ≡ ok (some s, rest)
  unfolding literal_bytes
  literal_bytes_plain [] (c ∷ rest) h = refl
  literal_bytes_plain [] [] h = ground arith
  literal_bytes_plain (b ∷ s) rest h =
      rw (take-length_append s rest, drop-length_append s rest)
        (ground (arith, length-append s rest))

  not_huffman : (b : ℕ) → b < 128 → not (bit_and b 0x80 == 0) ≡ false
  not_huffman b h = ground (arith, top_bit b)

  module _ (s rest : Bytes) (hs : length s < 2 ^ 31) (more : 0 < length (s ++ rest)) where
    parse_string_at :
        (b : ℕ) (bytes : Bytes)
        → b < 128
        → decode_hpack_variable_integer 7 (b ∷ bytes) ≡ ok (length s, s ++ rest)
        → parse_literal_string_value g (b ∷ bytes) ≡ ok (some s, rest)
    unfolding parse_literal_string_value
    parse_string_at b bytes h decoded =
        rw (decoded, not_huffman b h) (literal_bytes_plain s rest more)

    parse_string : parse_literal_string_value g (string_literal s ++ rest) ≡ ok (some s, rest)
    parse_string =
        let (b, bytes, e, _, low) = encoding_first IsFlag-7 (length s) in
        let decoded = decode-encoding IsFlag-7 (length s) (s ++ rest) (omega arith) in
        rw (append_assoc (encoding 0 (length s) 7) s rest)
          (rw e (parse_string_at b (bytes ++ (s ++ rest)) low (rw e at decoded)))

  -- The first byte of a string literal is there, so the value is read as one.
  parse_value_plain :
      (key : Tstr) (v rest : Bytes)
      → length v < 2 ^ 31
      → 0 < length v
      → parse_value g key (string_literal v ++ rest)
        ≡ ok (record { key = key; value = some v }, rest)
  unfolding parse_value
  parse_value_plain key v rest hv some_bytes =
      let (b, bytes, e, _, _) = encoding_first IsFlag-7 (length v) in
      let parsed = parse_string v rest hv (omega (arith, length-append v rest)) in
      rw e (rw (rw e at parsed))

  module _ (state : HpackDynamicTableState) {p flag : ℕ} (f : IsFlag p flag) (v rest : Bytes)
      (hv : length v < 2 ^ 31) (some_bytes : 0 < length v) where
    value_there : (k : Bytes) → 0 < length (k ++ (string_literal v ++ rest))
    value_there k = omega (
      arith,
      length-append k (string_literal v ++ rest),
      length-append (string_literal v) rest,
      length-append (encoding 0 (length v) 7) v,
    )

    -- The literal field with its key, and with the index of its key.
    pub parse_literal_key :
        (k : Bytes)
        → length k < 2 ^ 31
        → parse_literal_field g p state
            (encoding flag 0 p ++ (string_literal k ++ (string_literal v ++ rest)))
          ≡ ok (record { key = some k; value = some v }, rest)
    unfolding parse_literal_field parse_name
    parse_literal_key k hk =
        rw
          (
            decode-encoding f 0 (string_literal k ++ (string_literal v ++ rest)) (omega arith),
            parse_string k (string_literal v ++ rest) hk (value_there k),
          )
          (parse_value_plain (some k) v rest hv some_bytes)

    pub parse_literal_index :
        (idx : ℕ) (entry : HpackHeaderDynamicEntry)
        → 0 < idx
        → idx < 2 ^ 31
        → hpack_get_table_entry_at g state idx ≡ ok entry
        → parse_literal_field g p state (encoding flag idx p ++ (string_literal v ++ rest))
          ≡ ok (record { key = entry.key; value = some v }, rest)
    unfolding parse_literal_field parse_name
    parse_literal_index idx entry pos hi found =
        rw (decode-encoding f idx (string_literal v ++ rest) (omega arith), nonzero idx pos, found)
          (parse_value_plain entry.key v rest hv some_bytes)

  value_refused : (key : Tstr) → parse_value g key (string_literal []) ≡ error generic
  unfolding parse_value parse_literal_string_value literal_bytes
  value_refused key = rw (decode-encoding IsFlag-7 0 [] (omega arith))

  -- An empty value at the end of the input is refused.
  pub parse_literal_key_refused :
      (state : HpackDynamicTableState) {p flag : ℕ} (f : IsFlag p flag) (k : Bytes)
      → length k < 2 ^ 31
      → parse_literal_field g p state (encoding flag 0 p ++ (string_literal k ++ string_literal []))
        ≡ error generic
  unfolding parse_literal_field parse_name
  parse_literal_key_refused state f k hk =
      rw
        (
          decode-encoding f 0 (string_literal k ++ string_literal []) (omega arith),
          parse_string k (string_literal []) hk
              (omega (arith, length-append k (string_literal []))),
        )
        (value_refused (some k))
