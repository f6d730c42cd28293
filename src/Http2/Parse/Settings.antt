-- ===== src/Http2/Parse/Settings.antt =====
-- The parser of src/http/v2.c for SETTINGS frames.
use my_simple_c_http_server.Prelude.{
  ℕ, ◌+◌, ◌%◌, Bool, true, false, not, ◌&&◌, ◌||◌, List, [], ◌∷◌, ltb, ◌==◌, if◌then◌else◌, Bytes,
  length, Outcome, ok, fault, ◌>>=◌, map_ok,
}
use my_simple_c_http_server.Serialization.{deserialize_u16_be_to_host, deserialize_u32_be_to_host}
use my_simple_c_http_server.Http2.Types.{
  Http2RawHeader, Http2SettingSingleValue, Http2Frame, settings_frame, protocol_error,
  flow_control_error, frame_size_error, flag_ack, enable_push_id, header_table_size_id,
  max_concurrent_streams_id, initial_window_size_id, max_frame_size_id, max_header_list_size_id,
  max_flow_control_window_size, max_max_frame_size, default_settings_max_frame_size,
}
use my_simple_c_http_server.Http2.Context.{Http2Context}
use my_simple_c_http_server.Http2.Send.{host}
use my_simple_c_http_server.Http2.Parse.Common.{
  FrameError, Parsed, has_other_flags, has_flag, connection_error, read_or,
}

module _ (context : Http2Context) where
  -- The `switch` on the identifier: whether the setting is kept.
  unfoldable pub check_setting : ℕ → ℕ → Outcome FrameError Bool
  check_setting identifier value =
      if identifier == header_table_size_id
      then ok true
      else if identifier == enable_push_id
      then (if not (value == 0) && not (value == 1)
          then connection_error context protocol_error "Invalid SETTINGS_ENABLE_PUSH settings value"
          else ok true)
      else if identifier == max_concurrent_streams_id
      then ok true
      else if identifier == initial_window_size_id
      then (if ltb max_flow_control_window_size value
          then connection_error context flow_control_error
              "Invalid SETTINGS_INITIAL_WINDOW_SIZE settings value"
          else ok true)
      else if identifier == max_frame_size_id
      then (if ltb (max_max_frame_size + 1) value || ltb value default_settings_max_frame_size
          then connection_error context protocol_error
              "Invalid SETTINGS_MAX_FRAME_SIZE settings value"
          else ok true)
      else if identifier == max_header_list_size_id
      then ok true
      else ok false

  -- The loop, six bytes a round. A rest that is no multiple of six was refused before it.
  unfoldable pub parse_settings_entries : Bytes → Outcome FrameError (List Http2SettingSingleValue)
  parse_settings_entries (a ∷ b ∷ c ∷ d ∷ e ∷ f ∷ rest) =
      deserialize_u16_be_to_host host (a ∷ b ∷ c ∷ d ∷ e ∷ f ∷ rest) >>= λ identifier.
      deserialize_u32_be_to_host host (c ∷ d ∷ e ∷ f ∷ rest) >>= λ value.
      check_setting identifier value >>= λ kept. parse_settings_entries rest >>= λ entries.
      ok (if kept then (record { identifier = identifier; value = value }) ∷ entries else entries)
  parse_settings_entries [] = ok []
  parse_settings_entries _ = fault

  unfoldable pub parse_raw_http2_settings_frame : Bool → Bytes → Outcome FrameError Http2Frame
  parse_raw_http2_settings_frame ack input =
      if not (length input % 6 == 0)
      then connection_error context frame_size_error
          "invalid settings frame length, not a multiple of 6"
      else map_ok (λ entries. settings_frame (record { ack = ack; entries = entries }))
          (parse_settings_entries input)

  unfoldable pub parse_http2_settings_frame : Http2RawHeader → Bytes → Parsed Http2Frame
  parse_http2_settings_frame header reader =
      if not (header.stream_identifier == 0)
      then connection_error context protocol_error "Settings Frame only allows stream id 0"
      else if has_other_flags header.flags flag_ack
      then connection_error context protocol_error "invalid settings frame flags"
      else if has_flag header.flags flag_ack
      then (if not (header.length == 0)
          then connection_error context frame_size_error
              "ack in settings frame with a non zero payload is invalid"
          else ok (settings_frame (record { ack = true; entries = [] }), reader))
      else if not (header.length % 6 == 0)
      then connection_error context frame_size_error
          "invalid settings frame length, not a multiple of 6"
      else (read_or context header.length "Failed to read enough data for the frame data" reader
          >>= λ (frame_data, rest).
              parse_raw_http2_settings_frame false frame_data >>= λ frame. ok (frame, rest))
