-- ===== src/Http2/Parse/Plain.antt =====
-- The parsers of src/http/v2.c for the other frames, and the parser of a frame.
use my_simple_c_http_server.Prelude.{
  ◌-◌, not, [], ◌∷◌, ltb, ◌==◌, if◌then◌else◌, Bytes, drop, Outcome, ok, fault, ◌>>=◌,
}
use my_simple_c_http_server.Serialization.{deserialize_u32_be_to_host}
use my_simple_c_http_server.Http2.Types.{
  Http2RawHeader, Http2Frame, priority_frame, rst_stream_frame, ping_frame, goaway_frame,
  window_update_frame, continuation_frame, type_data, type_headers, type_priority, type_rst_stream,
  type_settings, type_push_promise, type_ping, type_goaway, type_window_update, type_continuation,
  protocol_error, internal_error, frame_size_error, flag_end_headers, flag_ack,
}
use my_simple_c_http_server.Http2.Context.{Http2Context}
use my_simple_c_http_server.Http2.Send.{host}
use my_simple_c_http_server.Http2.Parse.Common.{
  FrameError, Parsed, has_other_flags, has_flag, connection_error, read_or, deserialize_identifier,
  get_http2_priority_info_from_raw_data,
}
use my_simple_c_http_server.Http2.Parse.Padded.{
  parse_http2_data_frame, parse_http2_headers_frame, parse_http2_push_promise_frame,
}
use my_simple_c_http_server.Http2.Parse.Settings.{parse_http2_settings_frame}

module _ (context : Http2Context) (header : Http2RawHeader) where
  open header use {flags, stream_identifier}

  unfoldable pub parse_http2_priority_frame : Bytes → Parsed Http2Frame
  parse_http2_priority_frame reader =
      if stream_identifier == 0
      then connection_error context protocol_error "Priority Frame doesn't allow stream id 0"
      else if has_other_flags flags 0
      then connection_error context protocol_error "invalid priority frame flags"
      else if not (header.length == 5)
      then connection_error context frame_size_error "not enough frame data for priority info"
      else (read_or context 5 "Failed to read enough data for the frame header" reader
          >>= λ (priority_data, rest).
              get_http2_priority_info_from_raw_data priority_data >>= λ priority. ok (
                priority_frame (record { priority = priority; identifier = stream_identifier }),
                rest,
              ))

  unfoldable pub parse_http2_rst_stream_frame : Bytes → Parsed Http2Frame
  parse_http2_rst_stream_frame reader =
      if stream_identifier == 0
      then connection_error context protocol_error "Rst stream Frame doesn't allow stream id 0"
      else if has_other_flags flags 0
      then connection_error context protocol_error "invalid rst stream frame flags"
      else if not (header.length == 4)
      then connection_error context frame_size_error "not enough frame data for rst stream data"
      else (read_or context 4 "Failed to read enough data for the frame header" reader
          >>= λ (error_code_data, rest).
              deserialize_u32_be_to_host host error_code_data >>= λ error_code. ok (
                rst_stream_frame
                    (record { error_code = error_code; identifier = stream_identifier }),
                rest,
              ))

  unfoldable pub parse_http2_ping_frame : Bytes → Parsed Http2Frame
  parse_http2_ping_frame reader =
      if not (stream_identifier == 0)
      then connection_error context protocol_error "The ping Frame only allows stream id 0"
      else if has_other_flags flags flag_ack
      then connection_error context protocol_error "invalid ping frame flags"
      else if not (header.length == 8)
      then connection_error context frame_size_error "not enough frame data for ping data"
      else (read_or context 8 "Failed to read enough data for the frame header" reader
          >>= λ (opaque_data, rest). ok (
            ping_frame (record { ack = has_flag flags flag_ack; opaque_data = opaque_data }),
            rest,
          ))

  unfoldable pub parse_http2_goaway_frame : Bytes → Parsed Http2Frame
  parse_http2_goaway_frame reader =
      if not (stream_identifier == 0)
      then connection_error context protocol_error "The goaway Frame only allows stream id 0"
      else if has_other_flags flags 0
      then connection_error context protocol_error "invalid goaway frame flags"
      else if ltb header.length 8
      then connection_error context frame_size_error "invalid goaway frame length, not enough data"
      else (read_or context 8 "Failed to read enough data for the frame data" reader
          >>= λ (frame_data, rest). deserialize_identifier frame_data >>= λ last_stream_id.
              deserialize_u32_be_to_host host (drop 4 frame_data) >>= λ error_code.
              read_or context (header.length - 8) "Failed to read enough data for the frame data"
                rest
              >>= λ (additional_debug_data, rest'). ok (
                goaway_frame (record {
                  last_stream_id = last_stream_id;
                  error_code = error_code;
                  additional_debug_data = additional_debug_data;
                }),
                rest',
              ))

  unfoldable pub parse_http2_window_update_frame : Bytes → Parsed Http2Frame
  parse_http2_window_update_frame reader =
      if has_other_flags flags 0
      then connection_error context protocol_error "invalid windows update frame flags"
      else if not (header.length == 4)
      then connection_error context frame_size_error
          "invalid window update frame length, not enough data"
      else (read_or context 4 "Failed to read enough data for the frame header" reader
          >>= λ (frame_data, rest). deserialize_identifier frame_data >>= λ window_size_increment.
              ok (
                window_update_frame (record {
                  window_size_increment = window_size_increment;
                  identifier = stream_identifier;
                }),
                rest,
              ))

  unfoldable pub parse_http2_continuation_frame : Bytes → Parsed Http2Frame
  parse_http2_continuation_frame reader =
      if stream_identifier == 0
      then connection_error context protocol_error "Continuation Frame doesn't allow stream id 0"
      else if has_other_flags flags flag_end_headers
      then connection_error context protocol_error "invalid continuation frame flags"
      else (read_or context header.length "Failed to read enough data for the frame data" reader
          >>= λ (block_fragment, rest). ok (
            continuation_frame (record {
              block_fragment = block_fragment;
              identifier = stream_identifier;
              end_headers = has_flag flags flag_end_headers;
            }),
            rest,
          ))

  -- The `switch` on the type of a frame.
  unfoldable pub parse_frame_payload : Bytes → Parsed Http2Frame
  parse_frame_payload reader =
      if header.type == type_data
      then parse_http2_data_frame context header reader
      else if header.type == type_headers
      then parse_http2_headers_frame context header reader
      else if header.type == type_priority
      then parse_http2_priority_frame reader
      else if header.type == type_rst_stream
      then parse_http2_rst_stream_frame reader
      else if header.type == type_settings
      then parse_http2_settings_frame context header reader
      else if header.type == type_push_promise
      then parse_http2_push_promise_frame context header reader
      else if header.type == type_ping
      then parse_http2_ping_frame reader
      else if header.type == type_goaway
      then parse_http2_goaway_frame reader
      else if header.type == type_window_update
      then parse_http2_window_update_frame reader
      else if header.type == type_continuation
      then parse_http2_continuation_frame reader
      else connection_error context internal_error "Unrecognized frame type"

-- The nine bytes of `header_data`.
unfoldable pub parse_http2_raw_header : Bytes → Outcome FrameError Http2RawHeader
parse_http2_raw_header (a ∷ b ∷ c ∷ type ∷ flags ∷ rest) =
    deserialize_u32_be_to_host host (0 ∷ a ∷ b ∷ c ∷ []) >>= λ size.
    deserialize_identifier rest >>= λ stream_identifier.
    ok (record { length = size; type = type; flags = flags; stream_identifier = stream_identifier })
parse_http2_raw_header _ = fault

unfoldable pub parse_http2_frame : Http2Context → Bytes → Parsed Http2Frame
parse_http2_frame context reader =
    read_or context 9 "Failed to read enough data for the frame header" reader
    >>= λ (header_data, rest). parse_http2_raw_header header_data >>= λ header.
        if ltb context.settings.max_frame_size header.length
        then connection_error context frame_size_error "Header size too big"
        else parse_frame_payload context header rest
