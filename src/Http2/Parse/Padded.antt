-- ===== src/Http2/Parse/Padded.antt =====
-- The parsers of src/http/v2.c for the frames that may be padded: DATA, HEADERS and PUSH_PROMISE.
use my_simple_c_http_server.Prelude.{
  ℕ, ◌-◌, true, false, not, ltb, ◌==◌, if◌then◌else◌, Bytes, ok, ◌>>=◌,
}
use my_simple_c_http_server.Http2.Types.{
  Http2RawHeader, Http2FramePriorityOptional, Http2Frame, data_frame, headers_frame,
  push_promise_frame, protocol_error, flag_end_stream, flag_end_headers, flag_priority,
  default_stream_priority_ext,
}
use my_simple_c_http_server.Http2.Context.{Http2Context}
use my_simple_c_http_server.Http2.Parse.Common.{
  Parsed, has_other_flags, has_flag, connection_error, read_or, read_padding_length, read_padding,
  deserialize_identifier, get_http2_priority_info_from_raw_data,
}

module _ (context : Http2Context) (header : Http2RawHeader) where
  open header use {flags, stream_identifier}

  unfoldable pub parse_http2_data_frame : Bytes → Parsed Http2Frame
  parse_http2_data_frame reader =
      if stream_identifier == 0
      then connection_error context protocol_error "Data Frame doesn't allow stream id 0"
      else if has_other_flags flags 0x09
      then connection_error context protocol_error "invalid data frame flags"
      else (read_padding_length context flags header.length reader
          >>= λ ((padding_length, payload_length), rest).
              read_or context payload_length "Failed to read enough data for the frame data" rest
              >>= λ (content, rest'). read_padding context padding_length rest' >>= λ after. ok (
                data_frame (record {
                  content = content;
                  is_end = has_flag flags flag_end_stream;
                  identifier = stream_identifier;
                }),
                after,
              ))

  -- The payload length is what is left of it.
  unfoldable pub read_priority : ℕ → Bytes → Parsed (Http2FramePriorityOptional × ℕ)
  read_priority payload_length reader =
      if not (has_flag flags flag_priority)
      then ok (
        (record { has_priority = false; priority = default_stream_priority_ext 0 }, payload_length),
        reader,
      )
      else if ltb payload_length 5
      then connection_error context protocol_error "not enough frame data for priority info"
      else (read_or context 5 "Failed to read enough data for the frame header" reader
          >>= λ (priority_data, rest).
              get_http2_priority_info_from_raw_data priority_data >>= λ priority.
              ok ((record { has_priority = true; priority = priority }, payload_length - 5), rest))

  unfoldable pub parse_http2_headers_frame : Bytes → Parsed Http2Frame
  parse_http2_headers_frame reader =
      if stream_identifier == 0
      then connection_error context protocol_error "Headers Frame doesn't allow stream id 0"
      else if has_other_flags flags 0x2d
      then connection_error context protocol_error "invalid headers frame flags"
      else (read_padding_length context flags header.length reader
          >>= λ ((padding_length, payload_length), rest).
              read_priority payload_length rest >>= λ ((priority_opt, left), rest').
              read_or context left "Failed to read enough data for the frame data" rest'
              >>= λ (block_fragment, rest'').
                  read_padding context padding_length rest'' >>= λ after. ok (
                    headers_frame (record {
                      priority_opt = priority_opt;
                      block_fragment = block_fragment;
                      identifier = stream_identifier;
                      end_stream = has_flag flags flag_end_stream;
                      end_headers = has_flag flags flag_end_headers;
                    }),
                    after,
                  ))

  -- One byte is read for the promised identifier, which takes four.
  unfoldable pub parse_http2_push_promise_frame : Bytes → Parsed Http2Frame
  parse_http2_push_promise_frame reader =
      if not (stream_identifier == 0)
      then connection_error context protocol_error "Push promise Frame only allows stream id 0"
      else if has_other_flags flags 0x0c
      then connection_error context protocol_error "invalid push promise frame flags"
      else if not context.settings.enable_push
      then connection_error context protocol_error "push promise frames are disabled per settings"
      else (read_padding_length context flags header.length reader
          >>= λ ((padding_length, payload_length), rest).
              if ltb payload_length 4
              then connection_error context protocol_error
                  "not enough frame data for promised stream identifier field(4 bytes)"
              else (read_or context 1 "Failed to read enough data for the frame header" rest
                  >>= λ (identifier_data, rest').
                      deserialize_identifier identifier_data >>= λ promised_stream_identifier.
                      read_or context (payload_length - 4)
                        "Failed to read enough data for the frame data" rest'
                      >>= λ (block_fragment, rest'').
                          read_padding context padding_length rest'' >>= λ after. ok (
                            push_promise_frame (record {
                              promised_stream_identifier = promised_stream_identifier;
                              block_fragment = block_fragment;
                              identifier = stream_identifier;
                              end_headers = has_flag flags flag_end_headers;
                            }),
                            after,
                          )))
