-- ===== src/Hpack/RoundTrip.antt =====
-- The encoder of src/http/hpack.c without Huffman coding, and the decoder on what it wrote.
pub mod Fields
pub mod Choice
pub mod Headers
pub mod EmptyValue
use my_simple_c_http_server.Prelude.{
  ℕ, ◌+◌, ◌^◌, ◌≤◌, ◌<◌, ◌≡◌, Bool, true, List, [], ◌∷◌, ◌++◌, some, Bytes, length, ok,
}
use my_simple_c_http_server.Hpack.Types.{HttpHeaderField, External}
use my_simple_c_http_server.Hpack.TableState.{HpackDynamicTableState, IsSized}
use my_simple_c_http_server.Hpack.Compress.{Encoded}
use my_simple_c_http_server.Hpack.Decompress.{Decoder, decode_field}

-- A key and a value whose lengths fit an `int`, and the value is not empty.
pub record IsPlain (field : HttpHeaderField) : Type 0 where
  pub key_bytes : Bytes
  pub value_bytes : Bytes
  pub has_key : field.key ≡ some key_bytes
  pub has_value : field.value ≡ some value_bytes
  pub key_small : length key_bytes < 2 ^ 31
  pub value_small : length value_bytes < 2 ^ 31
  pub value_some : 0 < length value_bytes

module _ (ext : External) where
  -- The field is decoded from these bytes, and takes the decoder to the encoder's new state.
  abbrev pub Reads :
      HpackDynamicTableState → HttpHeaderField → ℕ → Bytes → HpackDynamicTableState → Type 0
  Reads state field b bytes state' =
      (headers : List HttpHeaderField) (rest : Bytes)
      → decode_field ext (record { state = state; headers = headers }) b (bytes ++ rest)
        ≡ ok (record { state = state'; headers = headers ++ field ∷ [] }, rest)

  -- What the encoding of one field comes to.
  pub record Carries (state : HpackDynamicTableState) (field : HttpHeaderField) (encoded : Encoded)
      : Type 0 where
    pub first : ℕ
    pub others : Bytes
    pub after : HpackDynamicTableState
    pub encodes : encoded ≡ ok (first ∷ others, after)
    pub sized : IsSized after
    pub counts : after.dynamic_table.count ≤ state.dynamic_table.count + 1
    pub reads : Reads state field first others after

abbrev pub ArePlain : List HttpHeaderField → Type 0
ArePlain [] = Unit
ArePlain (field ∷ fields) = IsPlain field × ArePlain fields
