-- ===== src/Hpack/Tests/Runs.antt =====
-- The theorems on whole inputs, and on integers, at concrete data.
use my_simple_c_http_server.Prelude.{
  ℕ, suc, ◌+◌, ◌^◌, ◌≤◌, ◌<◌, ◌≡◌, refl, List, [], ◌∷◌, ◌++◌, none, some, arith, Bytes, length, ok,
  error, fault, Ensures,
}
use my_simple_c_http_server.Hpack.Types.{Tstr, HttpHeaderField}
use my_simple_c_http_server.Hpack.Integer.{
  decode_hpack_variable_integer, encode_hpack_variable_integer,
}
use my_simple_c_http_server.Hpack.Integer.Encoding.{IsFlag, groups, encoding, encode-encoding}
use my_simple_c_http_server.Hpack.Integer.Decode.{decode_takes}
use my_simple_c_http_server.Hpack.Integer.RoundTrip.{
  decode-encoding, decode-encode, decode-encode_fault,
}
use my_simple_c_http_server.Hpack.Huffman.{decode_bytes_huffman}
use my_simple_c_http_server.Hpack.Huffman.Ends.{IsDecodeError, decode_bytes_huffman-Ensures}
use my_simple_c_http_server.Hpack.Compress.{never, add_all, all_tables_usage}
use my_simple_c_http_server.Hpack.Compress.Fields.{
  http2_hpack_compress_data, http2_hpack_compress_data_simple,
}
use my_simple_c_http_server.Hpack.Decompress.{in_never_indexed, http2_hpack_decompress_data}
use my_simple_c_http_server.Hpack.Decompress.Safe.{SizedError, SizedDecoder, decompress-Ensures}
use my_simple_c_http_server.Hpack.RoundTrip.{IsPlain, ArePlain}
use my_simple_c_http_server.Hpack.RoundTrip.Headers.{Agree, decompress-compress}
use my_simple_c_http_server.Hpack.RoundTrip.EmptyValue.{decompress-compress_empty}
use my_simple_c_http_server.Hpack.Tests.{
  example, example_alloc, example_lookup, two_state, two_state-IsSized, method, get, path,
}

abbrev field_of : Tstr → Tstr → HttpHeaderField
field_of key value = record { key = key; value = value }

-- A field of the static table, one with its key from there, and one that is in neither table.
abbrev more_headers : List HttpHeaderField
more_headers =
    field_of path (some (b'x' ∷ [])) ∷ field_of (some (b'n' ∷ [])) (some (b'1' ∷ b'2' ∷ [])) ∷ []

headers_plain : ArePlain (field_of method get ∷ more_headers)
headers_plain = (
  plain (b'm' ∷ []) b'G' [] (omega arith) (omega arith),
  (
    plain (b'p' ∷ []) b'x' [] (omega arith) (omega arith),
    (plain (b'n' ∷ []) b'1' (b'2' ∷ []) (omega arith) (omega arith), tt),
  ),
)
  where
    plain :
        (k : Bytes) (v : ℕ) (vs : Bytes)
        → length k < 2 ^ 31
        → suc (length vs) < 2 ^ 31
        → IsPlain (field_of (some k) (some (v ∷ vs)))
    plain k v vs hk hv = record {
      key_bytes = k;
      value_bytes = v ∷ vs;
      has_key = refl;
      has_value = refl;
      key_small = hk;
      value_small = hv;
      value_some = omega arith;
    }

decompress-compress_example : Agree example two_state (field_of method get ∷ more_headers) (
    http2_hpack_compress_data example two_state
      (field_of method get ∷ more_headers)
      (record { huffman_usage = never; type = all_tables_usage; table_add_type = add_all }))
decompress-compress_example =
    decompress-compress example example_alloc example_lookup two_state two_state-IsSized add_all
      (field_of method get) more_headers headers_plain (omega arith) all_tables_usage

decompress-compress_empty_example :
    (bytes : Bytes) × (http2_hpack_compress_data_simple example
        (record { key = some (b'k' ∷ []); value = some [] } ∷ [])
        never
        none
      ≡ ok (some bytes))
    × (http2_hpack_decompress_data example two_state bytes ≡ error (in_never_indexed, two_state))
decompress-compress_empty_example =
    decompress-compress_empty example two_state (b'k' ∷ []) (omega arith)

-- An indexed field, a field that is added to the table, and a change of its maximum.
decompress-Ensures_example :
    Ensures SizedError SizedDecoder
      (http2_hpack_decompress_data example two_state (0x81 ∷ 0x42 ∷ 0x01 ∷ b'y' ∷ 0x3f ∷ 0x00 ∷ []))
decompress-Ensures_example =
    decompress-Ensures example example_alloc two_state
      (0x81 ∷ 0x42 ∷ 0x01 ∷ b'y' ∷ 0x3f ∷ 0x00 ∷ []) two_state-IsSized

decode_bytes_huffman-Ensures_example :
    Ensures IsDecodeError (λ _. Unit) (decode_bytes_huffman example.tree (0x5f ∷ []))
decode_bytes_huffman-Ensures_example = decode_bytes_huffman-Ensures example.tree (0x5f ∷ [])

IsFlag-5 : IsFlag 5 0x20
IsFlag-5 = record { narrow = omega arith; above = omega arith; clear = refl }

decode-encode_example :
    (bytes : Bytes) × (encode_hpack_variable_integer 0x20 1337 5 ≡ some bytes)
    × (decode_hpack_variable_integer 5 (bytes ++ 7 ∷ []) ≡ ok (1337, 7 ∷ []))
decode-encode_example = decode-encode IsFlag-5 1337 (7 ∷ []) (omega arith)

decode-encode_fault_example :
    (bytes : Bytes) × (encode_hpack_variable_integer 0x20 4294967296 5 ≡ some bytes)
    × (decode_hpack_variable_integer 5 (bytes ++ []) ≡ fault)
decode-encode_fault_example = decode-encode_fault IsFlag-5 4294967296 [] (omega arith) (omega arith)

encode-encoding_example : encode_hpack_variable_integer 0x20 1337 5 ≡ some (encoding 0x20 1337 5)
encode-encoding_example = encode-encoding IsFlag-5 1337 (omega arith)

-- RFC 7541, C.1.2, behind the bits 001.
decoded : decode_hpack_variable_integer 5 (0x3f ∷ 0x9a ∷ 0x0a ∷ 7 ∷ []) ≡ ok (1337, 7 ∷ [])
unfolding groups
decoded = decode-encoding IsFlag-5 1337 (7 ∷ []) (omega arith)

abbrev input : Bytes
input = 0x3f ∷ 0x9a ∷ 0x0a ∷ 7 ∷ []

abbrev left : Bytes
left = 7 ∷ []

decode_takes_example :
    (length left < length input) × (length input ≤ length left + 6) × (1337 < 2 ^ 34)
decode_takes_example = decode_takes 5 input 1337 left (omega arith) decoded
