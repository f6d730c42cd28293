-- ===== src/Hpack/RoundTrip/Headers.antt =====
-- http2_hpack_compress_data of src/http/hpack.c without Huffman coding, and
-- http2_hpack_decompress_data on its result.
use my_simple_c_http_server.Prelude.{
  ℕ, zero, suc, ◌+◌, ◌^◌, ◌≤◌, ◌<◌, ◌≡◌, sym, ap, ◌∙◌, Bool, true, false, List, [], ◌∷◌, ◌++◌,
  append_assoc, append-nil, Option, none, some, arith, Bytes, length, length-append, Outcome, ok,
  error, fault, stuck, with_error, map_ok,
}
use my_simple_c_http_server.Hpack.Types.{HttpHeaderField, External}
use my_simple_c_http_server.Hpack.TableState.{HpackDynamicTableState, IsSized}
use my_simple_c_http_server.Hpack.Compress.{
  Encoded, NullBuffer, Buffer, never, Http2HpackTableAddType, Http2HpackCompressType,
  no_table_usage, static_table_usage, all_tables_usage,
}
use my_simple_c_http_server.Hpack.Compress.Lookup.Found.{IsLookup}
use my_simple_c_http_server.Hpack.Compress.Fields.{
  Compressed, http2_hpack_compress_data_simple, http2_hpack_compress_data_extended,
  http2_hpack_compress_data,
}
use my_simple_c_http_server.Hpack.Decompress.{Decoder, decode_fields, http2_hpack_decompress_data}
use my_simple_c_http_server.Hpack.RoundTrip.{ArePlain, Carries}
use my_simple_c_http_server.Hpack.RoundTrip.Choice.{extended_Carries, literal_Carries}

module _ (ext : External) where
  abbrev decoder : HpackDynamicTableState → List HttpHeaderField → Decoder
  decoder state headers = record { state = state; headers = headers }

  -- With enough fuel the bytes are decoded to the fields, behind the headers that are there.
  abbrev DecodesTo :
      HpackDynamicTableState → List HttpHeaderField → Bytes → HpackDynamicTableState → Type 0
  DecodesTo state fields bytes after =
      (headers : List HttpHeaderField) (fuel : ℕ)
      → length bytes ≤ fuel
      → decode_fields ext fuel (decoder state headers) bytes
        ≡ ok (decoder after (headers ++ fields))

  decodes_none : (state : HpackDynamicTableState) → DecodesTo state [] [] state
  unfolding decode_fields
  decodes_none state headers zero h = ap (λ l. ok (decoder state l)) (sym (append-nil headers))
  decodes_none state headers (suc fuel) h =
      ap (λ l. ok (decoder state l)) (sym (append-nil headers))

  module _ (state : HpackDynamicTableState) (field : HttpHeaderField)
      (fields : List HttpHeaderField) {encoded : Encoded}
      (c : Carries ext state field encoded) where
    decodes_more :
        (bytes : Bytes) (after : HpackDynamicTableState)
        → DecodesTo c.after fields bytes after
        → DecodesTo state (field ∷ fields) (c.first ∷ (c.others ++ bytes)) after
    unfolding decode_fields
    decodes_more bytes after next headers zero h = ground arith
    decodes_more bytes after next headers (suc fuel) h =
        rw
          (
            decode_fields,
            c.reads headers bytes,
            next (headers ++ field ∷ []) fuel (omega (arith, length-append c.others bytes)),
          )
          (ap (λ l. ok (decoder after l)) (append_assoc headers (field ∷ []) fields))

  -- What a list comes to behind the bytes `result`.
  abbrev Sends : List HttpHeaderField → HpackDynamicTableState → Bytes → Compressed → Type 0
  Sends fields state result compressed =
      (bytes : Bytes) × (after : HpackDynamicTableState) × (compressed
        ≡ ok (some (result ++ bytes), after))
      × DecodesTo state fields bytes after

  module _ (alloc_bounded : (n : ℕ) → ext.can_alloc n ≡ true → n ≤ 2 ^ 62) (lookup : IsLookup ext)
      (add_type : Http2HpackTableAddType) (use_all_tables : Bool) where
    extended_Sends :
        (fields : List HttpHeaderField)
        → ArePlain fields
        → (state : HpackDynamicTableState) → IsSized state
        → length ext.static_table + state.dynamic_table.count + length fields < 2 ^ 31
        → (result : Bytes)
        → Sends fields state result (
            http2_hpack_compress_data_extended ext fields state never add_type use_all_tables
              (some result))
    unfolding http2_hpack_compress_data_extended
    extended_Sends [] plain state sized h result =
        ([], state, ap (λ l. ok (some l, state)) (sym (append-nil result)), decodes_none state)
    extended_Sends (field ∷ fields) (plain, plains) state sized h result =
        let c =
          extended_Carries ext alloc_bounded state sized field plain lookup (omega arith) add_type
            use_all_tables in
        let (bytes, after, sends, decodes) =
          extended_Sends fields plains c.after c.sized (omega (arith, c.counts))
            (result ++ c.first ∷ c.others) in
        (
          c.first ∷ (c.others ++ bytes),
          after,
          rw (http2_hpack_compress_data_extended, c.encodes)
              (sends
                ∙ ap (λ l. ok (some l, after)) (append_assoc result (c.first ∷ c.others) bytes)),
          decodes_more state field fields c bytes after decodes,
        )

  with_state-eq-ok :
      (state : HpackDynamicTableState) (m : Buffer) (bytes : Bytes) (after : HpackDynamicTableState)
      → map_ok {B = Bytes × HpackDynamicTableState} (λ b. (b, state)) m ≡ ok (bytes, after)
      → (m ≡ ok bytes) × (after ≡ state)
  with_state-eq-ok state (ok a) bytes after h = (cc, cc)
  with_state-eq-ok state (error e) bytes after h = cc
  with_state-eq-ok state fault bytes after h = cc
  with_state-eq-ok state stuck bytes after h = cc

  simple_Sends :
      (alloc_bounded : (n : ℕ) → ext.can_alloc n ≡ true → n ≤ 2 ^ 62)
      (state : HpackDynamicTableState)
      → IsSized state
      → (fields : List HttpHeaderField) → ArePlain fields
      → (result : Bytes)
      → (bytes : Bytes) × (http2_hpack_compress_data_simple ext fields never (some result)
          ≡ ok (some (result ++ bytes)))
        × DecodesTo state fields bytes state
  unfolding http2_hpack_compress_data_simple
  simple_Sends alloc_bounded state sized [] plain result =
      ([], ap (λ l. ok (some l)) (sym (append-nil result)), decodes_none state)
  simple_Sends alloc_bounded state sized (field ∷ fields) (plain, plains) result =
      let c = literal_Carries ext alloc_bounded state sized field plain in
      let (written, same) = with_state-eq-ok state _ (c.first ∷ c.others) c.after c.encodes in
      let (bytes, sends, decodes) =
        simple_Sends alloc_bounded state sized fields plains (result ++ c.first ∷ c.others) in
      (
        c.first ∷ (c.others ++ bytes),
        rw (http2_hpack_compress_data_simple, written)
            (sends ∙ ap (λ l. ok (some l)) (append_assoc result (c.first ∷ c.others) bytes)),
        decodes_more state field fields c bytes state (rw same decodes),
      )

  -- What the whole encoder and the whole decoder make of a list that is not empty.
  abbrev pub Agree : HpackDynamicTableState → List HttpHeaderField → Compressed → Type 0
  Agree state fields compressed =
      (bytes : Bytes) × (after : HpackDynamicTableState) × (compressed ≡ ok (some bytes, after))
      × (http2_hpack_decompress_data ext state bytes
          ≡ ok (record { state = after; headers = fields }))

  module _ (alloc_bounded : (n : ℕ) → ext.can_alloc n ≡ true → n ≤ 2 ^ 62) (lookup : IsLookup ext)
      (state : HpackDynamicTableState) (sized : IsSized state) (add_type : Http2HpackTableAddType)
      (field : HttpHeaderField) (fields : List HttpHeaderField) (plain : ArePlain (field ∷ fields))
      (room : length ext.static_table + state.dynamic_table.count + length (field ∷ fields)
        < 2 ^ 31) where
    Sends-Agree :
        (compressed : Compressed)
        → Sends (field ∷ fields) state [] compressed
        → Agree state (field ∷ fields) compressed
    unfolding http2_hpack_decompress_data
    Sends-Agree compressed (bytes, after, sends, decodes) =
        (bytes, after, sends, decodes [] (length bytes) (omega arith))

    simple_Agree : Agree state (field ∷ fields) (
        map_ok
          (λ result. (result, state))
          (with_error
            (λ _. state)
            (http2_hpack_compress_data_simple ext (field ∷ fields) never none)))
    unfolding http2_hpack_compress_data_simple
    simple_Agree =
        let (bytes, sends, decodes) =
          simple_Sends alloc_bounded state sized (field ∷ fields) plain [] in
        Sends-Agree _ (
          bytes,
          state,
          ap {A = Outcome NullBuffer (Option Bytes)} {B = Compressed}
              (λ m.
                map_ok {B = Option Bytes × HpackDynamicTableState} (λ result. (result, state))
                  (with_error (λ _. state) m))
              sends,
          decodes,
        )

    extended_Agree :
        (use_all_tables : Bool)
        → Agree state (field ∷ fields) (
            http2_hpack_compress_data_extended ext
              (field ∷ fields)
              state
              never
              add_type
              use_all_tables
              none)
    unfolding http2_hpack_compress_data_extended
    extended_Agree use_all_tables = Sends-Agree _ (
        extended_Sends alloc_bounded lookup add_type use_all_tables (field ∷ fields) plain state
          sized room [])

    -- Without Huffman coding, and in each of the three uses of the tables and with each choice of the
    -- headers that are added to the table, the decoder that has the encoder's state reads back the
    -- headers, in order, and arrives at the encoder's new state. There is a header at least, each key
    -- and value is there and shorter than 2 ^ 31 bytes, and no value is empty. The state is sized, the
    -- entries of both tables and the headers together are fewer than 2 ^ 31, the lookup in the static
    -- table is sound, and the two sides have one allocator, which grants at most 2 ^ 62 entries.
    pub decompress-compress :
        (type : Http2HpackCompressType)
        → Agree state (field ∷ fields) (
            http2_hpack_compress_data ext state
              (field ∷ fields)
              (record { huffman_usage = never; type = type; table_add_type = add_type }))
    unfolding http2_hpack_compress_data
    decompress-compress no_table_usage = simple_Agree
    decompress-compress static_table_usage = extended_Agree false
    decompress-compress all_tables_usage = extended_Agree true
