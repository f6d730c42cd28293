-- ===== src/Http2/RoundTrip/Sends.antt =====
-- A frame that src/http/v2.c sends is read back.
use mathlib.Core.Path.{subst}
use my_simple_c_http_server.Prelude.{
  ◌+◌, ◌%◌, ◌^◌, ◌≤◌, ◌<◌, ◌≡◌, refl, ◌∙◌, ◌≢◌, true, false, [], ◌++◌, length, bit_or, ==_iff,
  if◌then◌else◌, Bytes, arith, ok, error,
}
use my_simple_c_http_server.Serialization.Laws.{bytes_32, serialize_u32_be}
use my_simple_c_http_server.Http2.Types.{
  Http2Identifier, Http2RawHeader, Http2HeadersFrame, Http2Frame, data_frame, headers_frame,
  rst_stream_frame, settings_frame, ping_frame, goaway_frame, continuation_frame, priority_frame,
  push_promise_frame, window_update_frame, default_stream_priority_ext,
}
use my_simple_c_http_server.Http2.Context.{Http2Context}
use my_simple_c_http_server.Http2.Send.{
  host, Sent, unique, header_bytes, http2_send_raw_frame, http2_send_data_frame,
  http2_send_headers_frame, http2_send_continuation_frame, http2_send_rst_stream_frame,
  http2_send_ping_frame, http2_send_settings_frame, http2_send_goaway_frame, write_entries,
}
use my_simple_c_http_server.Http2.Send.Written.{
  raw_sent, goaway_data, goaway_sent, length-goaway_data,
}
use my_simple_c_http_server.Http2.Parse.{parse_frame_payload, parse_http2_frame}
use my_simple_c_http_server.Http2.RoundTrip.{IsHeader, frame-sent}
use my_simple_c_http_server.Http2.RoundTrip.Frames.{
  data_payload, headers_payload, continuation_payload, rst_stream_payload, ping_payload,
  settings_payload, goaway_payload,
}

-- The function that sends the frame.
abbrev pub http2_send_frame : Http2Frame → Sent
http2_send_frame (data_frame frame) = http2_send_data_frame frame
http2_send_frame (headers_frame frame) = http2_send_headers_frame frame
http2_send_frame (continuation_frame frame) = http2_send_continuation_frame frame
http2_send_frame (rst_stream_frame frame) = http2_send_rst_stream_frame frame
http2_send_frame (ping_frame frame) = http2_send_ping_frame frame
http2_send_frame (settings_frame frame) = http2_send_settings_frame frame
http2_send_frame (goaway_frame frame) =
    http2_send_goaway_frame frame.last_stream_id frame.error_code frame.additional_debug_data
http2_send_frame _ = error unique

-- A payload on a stream that the peer takes.
pub record IsPayload (context : Http2Context) (identifier : Http2Identifier) (payload : Bytes)
    : Type 0 where
  pub stream : identifier ≢ 0
  pub identifier_31 : identifier < 2 ^ 31
  pub length_24 : length payload < 2 ^ 24
  pub fits : length payload ≤ context.settings.max_frame_size

-- The frames that can be sent and read. HEADERS are sent without a priority, SETTINGS to acknowledge.
abbrev pub IsSendable : Http2Context → Http2Frame → Type 0
IsSendable context (data_frame frame) = IsPayload context frame.identifier frame.content
IsSendable context (headers_frame frame) =
    IsPayload context frame.identifier frame.block_fragment
    × (frame.priority_opt
        ≡ record { has_priority = false; priority = default_stream_priority_ext 0 })
IsSendable context (continuation_frame frame) =
    IsPayload context frame.identifier frame.block_fragment
IsSendable context (rst_stream_frame frame) =
    (frame.identifier ≢ 0)
    × (frame.identifier < 2 ^ 31)
    × (frame.error_code < 2 ^ 32)
    × (4 ≤ context.settings.max_frame_size)
IsSendable context (ping_frame frame) =
    (length frame.opaque_data ≡ 8) × (8 ≤ context.settings.max_frame_size)
IsSendable context (settings_frame frame) = (frame.ack ≡ true) × (frame.entries ≡ [])
IsSendable context (goaway_frame frame) =
    (frame.last_stream_id < 2 ^ 31)
    × (frame.error_code < 2 ^ 32)
    × (length frame.additional_debug_data + 8 < 2 ^ 24)
    × (length frame.additional_debug_data + 8 ≤ context.settings.max_frame_size)
IsSendable context _ = ⊥

module _ (context : Http2Context) (rest : Bytes) where
  abbrev ReadBack : Http2Frame → Type 0
  ReadBack frame =
      (sent : Bytes) × (http2_send_frame frame ≡ ok sent)
      × (parse_http2_frame context (sent ++ rest) ≡ ok (frame, rest))

  -- A raw frame whose payload is parsed to the frame.
  raw-ReadBack :
      (header : Http2RawHeader) (payload : Bytes) (frame : Http2Frame)
      → IsHeader header
      → header.length ≤ context.settings.max_frame_size
      → length payload ≡ header.length
      → http2_send_frame frame ≡ http2_send_raw_frame header payload
      → parse_frame_payload context header (payload ++ rest) ≡ ok (frame, rest)
      → ReadBack frame
  raw-ReadBack header payload frame is fits size sends parses = (
    header_bytes header ++ payload,
    sends ∙ raw_sent header payload size,
    frame-sent context header is fits payload rest size ∙ parses,
  )

  -- What a frame that can be sent is written as, the parser reads as that frame, and leaves what
  -- follows it.
  pub parse-send :
      (frame : Http2Frame)
      → IsSendable context frame
      → (sent : Bytes) × (http2_send_frame frame ≡ ok sent)
        × (parse_http2_frame context (sent ++ rest) ≡ ok (frame, rest))
  unfolding http2_send_data_frame http2_send_headers_frame http2_send_continuation_frame
      http2_send_rst_stream_frame http2_send_ping_frame http2_send_settings_frame
      http2_send_raw_frame write_entries
  parse-send (data_frame frame) p =
      let small : length frame.content % 2 ^ 24 ≡ length frame.content =
        omega (arith, p.length_24) in
      raw-ReadBack
        (record {
          length = length frame.content;
          type = 0;
          flags = if frame.is_end then 1 else 0;
          stream_identifier = frame.identifier;
        })
        frame.content (data_frame frame)
        (record { length_24 = p.length_24; identifier_31 = p.identifier_31 }) p.fits refl
        (rw (http2_send_data_frame, small) refl)
        (data_payload context frame.content frame.identifier p.stream rest frame.is_end)
  parse-send (headers_frame frame) (p, plain) =
      let small : length frame.block_fragment % 2 ^ 24 ≡ length frame.block_fragment =
        omega (arith, p.length_24) in
      let sent_frame : Http2HeadersFrame = record {
        priority_opt = record { has_priority = false; priority = default_stream_priority_ext 0 };
        block_fragment = frame.block_fragment;
        identifier = frame.identifier;
        end_stream = frame.end_stream;
        end_headers = frame.end_headers;
      } in
      let same : sent_frame ≡ frame = rw plain refl in
      subst (λ f. ReadBack (headers_frame f)) same
        (raw-ReadBack
          (record {
            length = length frame.block_fragment;
            type = 1;
            flags = bit_or (if frame.end_stream then 1 else 0) (if frame.end_headers then 4 else 0);
            stream_identifier = frame.identifier;
          })
          frame.block_fragment (headers_frame sent_frame)
          (record { length_24 = p.length_24; identifier_31 = p.identifier_31 }) p.fits refl
          (rw (http2_send_headers_frame, small) refl)
          (headers_payload context frame.block_fragment frame.identifier p.stream rest
            frame.end_stream frame.end_headers))
  parse-send (continuation_frame frame) p =
      let small : length frame.block_fragment % 2 ^ 24 ≡ length frame.block_fragment =
        omega (arith, p.length_24) in
      raw-ReadBack
        (record {
          length = length frame.block_fragment;
          type = 9;
          flags = if frame.end_headers then 4 else 0;
          stream_identifier = frame.identifier;
        })
        frame.block_fragment (continuation_frame frame)
        (record { length_24 = p.length_24; identifier_31 = p.identifier_31 }) p.fits refl
        (rw (http2_send_continuation_frame, small) refl)
        (continuation_payload context frame.block_fragment frame.identifier p.stream rest
          frame.end_headers)
  parse-send (rst_stream_frame frame) (stream, low, small, fits) =
      raw-ReadBack
        (record { length = 4; type = 3; flags = 0; stream_identifier = frame.identifier })
        (bytes_32 frame.error_code) (rst_stream_frame frame)
        (record { length_24 = omega arith; identifier_31 = low }) fits refl
        (rw (http2_send_rst_stream_frame, serialize_u32_be host frame.error_code) refl)
        (rst_stream_payload context frame.error_code frame.identifier rest stream small)
  parse-send (ping_frame frame) (eight, fits) =
      raw-ReadBack
        (record { length = 8; type = 6; flags = if frame.ack then 1 else 0; stream_identifier = 0 })
        frame.opaque_data (ping_frame frame)
        (record { length_24 = omega arith; identifier_31 = omega arith }) fits eight
        (rw (http2_send_ping_frame, (==_iff _ 8).1 eight) refl)
        (ping_payload context frame.ack frame.opaque_data rest eight)
  parse-send (settings_frame frame) (ack, empty) =
      let same : record { ack = true; entries = [] } ≡ frame = rw (ack, empty) refl in
      subst (λ f. ReadBack (settings_frame f)) same
        (raw-ReadBack (record { length = 0; type = 4; flags = 1; stream_identifier = 0 }) []
          (settings_frame (record { ack = true; entries = [] }))
          (record { length_24 = omega arith; identifier_31 = omega arith }) (omega arith) refl refl
          (settings_payload context rest))
  parse-send (goaway_frame frame) (low, small, short, fits) =
      let payload = goaway_data frame.last_stream_id frame.error_code frame.additional_debug_data in
      let header : Http2RawHeader = record {
        length = length frame.additional_debug_data + 8;
        type = 7;
        flags = 0;
        stream_identifier = 0;
      } in
      (
        header_bytes header ++ payload,
        goaway_sent frame.last_stream_id frame.error_code frame.additional_debug_data short,
        frame-sent context header (record { length_24 = short; identifier_31 = omega arith }) fits
              payload rest
              (length-goaway_data frame.last_stream_id frame.error_code frame.additional_debug_data)
            ∙ goaway_payload context frame.last_stream_id frame.error_code
                frame.additional_debug_data rest low small,
      )
  parse-send (priority_frame frame) h = elim h [ ]
  parse-send (push_promise_frame frame) h = elim h [ ]
  parse-send (window_update_frame frame) h = elim h [ ]
