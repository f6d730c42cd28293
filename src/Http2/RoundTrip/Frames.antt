-- ===== src/Http2/RoundTrip/Frames.antt =====
-- Each kind of frame that src/http/v2.c sends, as its parser reads it.
use my_simple_c_http_server.Prelude.{
  ℕ, ◌+◌, ◌-◌, ◌^◌, ◌<◌, ◌≡◌, refl, sym, ◌∙◌, ap, ◌≢◌, Bool, true, false, [], ◌++◌, append_assoc,
  length, length-append, drop, drop-length_append, ltb, ◌==◌, bit_or, ltb-false, if◌then◌else◌,
  Bytes, arith, ok,
}
use my_simple_c_http_server.Serialization.Laws.{bytes_32, serialize_u32_be}
use my_simple_c_http_server.Http2.Types.{
  Http2Identifier, data_frame, headers_frame, rst_stream_frame, settings_frame, ping_frame,
  goaway_frame, continuation_frame, default_stream_priority_ext,
}
use my_simple_c_http_server.Http2.Context.{Http2Context}
use my_simple_c_http_server.Http2.Send.{host, serialize_identifier}
use my_simple_c_http_server.Http2.Send.Written.{goaway_data, length-serialize_identifier}
use my_simple_c_http_server.Http2.Parse.{FrameError, parse_frame_payload}
use my_simple_c_http_server.Http2.Parse.{
  read_padding_length, read_padding, read_priority, parse_http2_data_frame,
  parse_http2_headers_frame, parse_http2_continuation_frame, parse_http2_rst_stream_frame,
  parse_http2_ping_frame, parse_http2_settings_frame, parse_http2_goaway_frame,
}
use my_simple_c_http_server.Http2.RoundTrip.{deserialize-bytes, identifier-bytes, read_front}

nonzero-test : (n : ℕ) → n ≢ 0 → (n == 0) ≡ false
nonzero-test n h = ground arith

module _ (context : Http2Context) where
  module _ (content : Bytes) (identifier : Http2Identifier) (stream : identifier ≢ 0)
      (rest : Bytes) where
    pub data_payload :
        (is_end : Bool)
        → parse_frame_payload context
            (record {
              length = length content;
              type = 0;
              flags = if is_end then 1 else 0;
              stream_identifier = identifier;
            })
            (content ++ rest)
          ≡ ok (
            data_frame (record { content = content; is_end = is_end; identifier = identifier }),
            rest,
          )
    unfolding parse_frame_payload parse_http2_data_frame read_padding_length read_padding
    data_payload true =
        rw
          (
            nonzero-test identifier stream,
            read_front context (length content) "Failed to read enough data for the frame data"
                content rest refl,
          )
          refl
    data_payload false =
        rw
          (
            nonzero-test identifier stream,
            read_front context (length content) "Failed to read enough data for the frame data"
                content rest refl,
          )
          refl

    pub headers_payload :
        (end_stream end_headers : Bool)
        → parse_frame_payload context
            (record {
              length = length content;
              type = 1;
              flags = bit_or (if end_stream then 1 else 0) (if end_headers then 4 else 0);
              stream_identifier = identifier;
            })
            (content ++ rest)
          ≡ ok (
            headers_frame (record {
              priority_opt = record {
                has_priority = false;
                priority = default_stream_priority_ext 0;
              };
              block_fragment = content;
              identifier = identifier;
              end_stream = end_stream;
              end_headers = end_headers;
            }),
            rest,
          )
    unfolding parse_frame_payload parse_http2_headers_frame read_padding_length read_padding
        read_priority
    headers_payload true true =
        rw
          (
            nonzero-test identifier stream,
            read_front context (length content) "Failed to read enough data for the frame data"
                content rest refl,
          )
          refl
    headers_payload true false =
        rw
          (
            nonzero-test identifier stream,
            read_front context (length content) "Failed to read enough data for the frame data"
                content rest refl,
          )
          refl
    headers_payload false true =
        rw
          (
            nonzero-test identifier stream,
            read_front context (length content) "Failed to read enough data for the frame data"
                content rest refl,
          )
          refl
    headers_payload false false =
        rw
          (
            nonzero-test identifier stream,
            read_front context (length content) "Failed to read enough data for the frame data"
                content rest refl,
          )
          refl

    pub continuation_payload :
        (end_headers : Bool)
        → parse_frame_payload context
            (record {
              length = length content;
              type = 9;
              flags = if end_headers then 4 else 0;
              stream_identifier = identifier;
            })
            (content ++ rest)
          ≡ ok (
            continuation_frame (record {
              block_fragment = content;
              identifier = identifier;
              end_headers = end_headers;
            }),
            rest,
          )
    unfolding parse_frame_payload parse_http2_continuation_frame
    continuation_payload true =
        rw
          (
            nonzero-test identifier stream,
            read_front context (length content) "Failed to read enough data for the frame data"
                content rest refl,
          )
          refl
    continuation_payload false =
        rw
          (
            nonzero-test identifier stream,
            read_front context (length content) "Failed to read enough data for the frame data"
                content rest refl,
          )
          refl

  pub rst_stream_payload :
      (error_code identifier : ℕ) (rest : Bytes)
      → identifier ≢ 0
      → error_code < 2 ^ 32
      → parse_frame_payload context
          (record { length = 4; type = 3; flags = 0; stream_identifier = identifier })
          (bytes_32 error_code ++ rest)
        ≡ ok (rst_stream_frame (record { error_code = error_code; identifier = identifier }), rest)
  unfolding parse_frame_payload parse_http2_rst_stream_frame
  rst_stream_payload error_code identifier rest stream small =
      rw
        (
          nonzero-test identifier stream,
          read_front context 4 "Failed to read enough data for the frame header"
              (bytes_32 error_code) rest refl,
          deserialize-bytes {E = FrameError} error_code [] small,
        )
        refl

  pub ping_payload :
      (ack : Bool) (opaque_data rest : Bytes)
      → length opaque_data ≡ 8
      → parse_frame_payload context
          (record { length = 8; type = 6; flags = if ack then 1 else 0; stream_identifier = 0 })
          (opaque_data ++ rest)
        ≡ ok (ping_frame (record { ack = ack; opaque_data = opaque_data }), rest)
  unfolding parse_frame_payload parse_http2_ping_frame
  ping_payload true opaque_data rest size =
      rw
        (read_front context 8 "Failed to read enough data for the frame header" opaque_data rest
          size)
        refl
  ping_payload false opaque_data rest size =
      rw
        (read_front context 8 "Failed to read enough data for the frame header" opaque_data rest
          size)
        refl

  pub settings_payload :
      (rest : Bytes)
      → parse_frame_payload context
          (record { length = 0; type = 4; flags = 1; stream_identifier = 0 })
          rest
        ≡ ok (settings_frame (record { ack = true; entries = [] }), rest)
  unfolding parse_frame_payload parse_http2_settings_frame
  settings_payload rest = refl

  pub goaway_payload :
      (last_stream_id error_code : ℕ) (debug_data rest : Bytes)
      → last_stream_id < 2 ^ 31
      → error_code < 2 ^ 32
      → parse_frame_payload context
          (record { length = length debug_data + 8; type = 7; flags = 0; stream_identifier = 0 })
          (goaway_data last_stream_id error_code debug_data ++ rest)
        ≡ ok (
          goaway_frame (record {
            last_stream_id = last_stream_id;
            error_code = error_code;
            additional_debug_data = debug_data;
          }),
          rest,
        )
  unfolding parse_frame_payload parse_http2_goaway_frame
  goaway_payload last_stream_id error_code debug_data rest small small' =
      let front : Bytes = serialize_identifier last_stream_id ++ bytes_32 error_code in
      let whole : goaway_data last_stream_id error_code debug_data ++ rest
          ≡ front ++ (debug_data ++ rest) =
        rw (serialize_u32_be host error_code) (append_assoc front debug_data rest) in
      let size : length front ≡ 8 = omega (
        arith,
        length-append (serialize_identifier last_stream_id) (bytes_32 error_code),
        length-serialize_identifier last_stream_id,
      ) in
      let behind : drop 4 front ≡ bytes_32 error_code =
        ap (λ n. drop n front) (sym (length-serialize_identifier last_stream_id))
        ∙ drop-length_append (serialize_identifier last_stream_id) (bytes_32 error_code) in
      let long : ltb (length debug_data + 8) 8 ≡ false = ltb-false _ _ (omega arith) in
      let left : length debug_data + 8 - 8 ≡ length debug_data = omega arith in
      rw whole (
        rw
          (
            parse_frame_payload,
            parse_http2_goaway_frame,
            long,
            read_front context 8 "Failed to read enough data for the frame data" front
                (debug_data ++ rest) size,
            identifier-bytes last_stream_id (bytes_32 error_code) small,
            behind,
            deserialize-bytes {E = FrameError} error_code [] small',
            left,
            read_front context (length debug_data) "Failed to read enough data for the frame data"
                debug_data rest refl,
          )
          refl)
