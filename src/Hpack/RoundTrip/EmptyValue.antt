-- ===== src/Hpack/RoundTrip/EmptyValue.antt =====
-- A header with an empty value, encoded and decoded by src/http/hpack.c.
use my_simple_c_http_server.Prelude.{
  ◌^◌, ◌<◌, ◌≡◌, [], ◌∷◌, ◌++◌, none, some, arith, Bytes, length, ok, error,
}
use my_simple_c_http_server.Hpack.Types.{External}
use my_simple_c_http_server.Hpack.TableState.{HpackDynamicTableState}
use my_simple_c_http_server.Hpack.Compress.{
  never, variant2, encode_single_header_field_literal_never_indexed_variant2,
}
use my_simple_c_http_server.Hpack.Compress.Literal.{string_literal, variant2_no_huffman_ok}
use my_simple_c_http_server.Hpack.Compress.Fields.{http2_hpack_compress_data_simple}
use my_simple_c_http_server.Hpack.Decompress.{
  in_never_indexed, decode_fields, http2_hpack_decompress_data,
}
use my_simple_c_http_server.Hpack.Decompress.Kinds.{decode_never}
use my_simple_c_http_server.Hpack.Decompress.Literal.{parse_literal_key_refused}
use my_simple_c_http_server.Hpack.RoundTrip.Fields.{IsFlag-never}

module _ (ext : External) (state : HpackDynamicTableState) (k : Bytes)
    (hk : length k < 2 ^ 31) where
  abbrev bytes : Bytes
  bytes = 0x10 ∷ (string_literal k ++ string_literal [])

  encodes :
      http2_hpack_compress_data_simple ext
        (record { key = some k; value = some [] } ∷ [])
        never
        none
      ≡ ok (some bytes)
  unfolding http2_hpack_compress_data_simple
      encode_single_header_field_literal_never_indexed_variant2 variant2
  encodes = rw (variant2_no_huffman_ok ext IsFlag-never [] (omega arith) k hk)

  refuses : http2_hpack_decompress_data ext state bytes ≡ error (in_never_indexed, state)
  unfolding http2_hpack_decompress_data decode_fields
  refuses = rw (
    http2_hpack_decompress_data,
    decode_fields,
    decode_never ext (record { state = state; headers = [] }) 0x10
        (string_literal k ++ string_literal []) (omega arith) (omega arith),
    parse_literal_key_refused ext state IsFlag-never k hk,
  )

  -- The encoding of one header with an empty value is an error to the decoder, whatever the key.
  pub decompress-compress_empty :
      (bytes : Bytes) × (http2_hpack_compress_data_simple ext
          (record { key = some k; value = some [] } ∷ [])
          never
          none
        ≡ ok (some bytes))
      × (http2_hpack_decompress_data ext state bytes ≡ error (in_never_indexed, state))
  decompress-compress_empty = (bytes, encodes, refuses)
