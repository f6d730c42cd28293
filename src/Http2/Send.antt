-- ===== src/Http2/Send.antt =====
-- The functions of src/http/v2.c that send a frame. The result of one is what it writes to the
-- connection; the errors of the connection itself are those of the network.
pub mod Written
pub mod Settings
use my_simple_c_http_server.Prelude.{
  ℕ, zero, suc, ◌+◌, ◌%◌, ◌^◌, Bool, true, false, ◌&&◌, not, List, [], ◌∷◌, ◌++◌, bit_or, ltb, ◌==◌,
  if◌then◌else◌, Bytes, length, set, drop, replicate, String, text_bytes, Outcome, ok, error, fault,
  stuck, ◌>>=◌,
}
use my_simple_c_http_server.Serialization.{
  ByteOrder, little_endian, serialize_u16_host_to_be, serialize_u32_host_to_be,
}
use my_simple_c_http_server.Http2.Types.{
  Http2Identifier, Http2RawHeader, Http2DataFrame, Http2HeadersFrame, Http2RstStreamFrame,
  Http2SettingSingleValue, Http2SettingsFrame, Http2PingFrame, Http2ContinuationFrame, type_data,
  type_headers, type_rst_stream, type_settings, type_ping, type_goaway, type_continuation,
  flag_end_stream, flag_end_headers, flag_ack,
}

-- `GENERIC_RES_ERR_UNIQUE()`
pub data SendError : Type 0 where
  unique : SendError

abbrev pub Sent : Type 0
Sent = Outcome SendError Bytes

-- The host that the server runs on.
abbrev pub host : ByteOrder
host = little_endian

-- `uint32_t`, and a bit field of 24 bits.
abbrev pub u32 : ℕ → ℕ
u32 n = n % 2 ^ 32

abbrev pub u24 : ℕ → ℕ
u24 n = n % 2 ^ 24

-- `identifier & 0x7fffffff`, which keeps the low 31 bits.
unfoldable pub serialize_identifier : Http2Identifier → Bytes
serialize_identifier identifier = serialize_u32_host_to_be host (identifier % 2 ^ 31)

-- The nine bytes in front of the data.
unfoldable pub header_bytes : Http2RawHeader → Bytes
header_bytes header =
    drop 1 (serialize_u32_host_to_be host header.length)
    ++ header.type ∷ header.flags ∷ serialize_identifier header.stream_identifier

unfoldable pub http2_send_raw_frame : Http2RawHeader → Bytes → Sent
http2_send_raw_frame header sent_data =
    if length sent_data == header.length
    then ok (header_bytes header ++ sent_data)
    else error unique

-- Where the length, a `uint32_t`, is not that of what is written, this leaves the buffer.
unfoldable pub http2_send_goaway_frame : Http2Identifier → ℕ → Bytes → Sent
http2_send_goaway_frame last_stream_id error_code additional_debug_data =
    let size = u32 (length additional_debug_data + 8) in
    let sent_data =
      serialize_identifier last_stream_id
      ++ serialize_u32_host_to_be host error_code
      ++ additional_debug_data in
    if length sent_data == size
    then http2_send_raw_frame
        (record { length = u24 size; type = type_goaway; flags = 0; stream_identifier = 0 })
        sent_data
    else fault

unfoldable pub http2_send_rst_stream_frame : Http2RstStreamFrame → Sent
http2_send_rst_stream_frame frame =
    http2_send_raw_frame
      (record {
        length = 4;
        type = type_rst_stream;
        flags = 0;
        stream_identifier = frame.identifier;
      })
      (serialize_u32_host_to_be host frame.error_code)

-- `buffer[i] = byte`, for each of the bytes.
unfoldable pub write_bytes : ℕ → Bytes → Bytes → Sent
write_bytes i [] buffer = ok buffer
write_bytes i (byte ∷ bytes) buffer =
    if ltb i (length buffer) then write_bytes (i + 1) bytes (set buffer i byte) else fault

-- The loop over the entries: the entry `i` is written at `i`.
unfoldable pub write_entries : ℕ → List Http2SettingSingleValue → Bytes → Sent
write_entries i [] buffer = ok buffer
write_entries i (entry ∷ entries) buffer =
    write_bytes i
      (serialize_u16_host_to_be host entry.identifier ++ serialize_u32_host_to_be host entry.value)
      buffer
    >>= write_entries (i + 1) entries

unfoldable pub http2_send_settings_frame : Http2SettingsFrame → Sent
http2_send_settings_frame frame =
    let size = u32 (length frame.entries) in
    if frame.ack && not (size == 0)
    then error unique
    else (write_entries 0 frame.entries (replicate size 0)
        >>= http2_send_raw_frame (record {
          length = u24 size;
          type = type_settings;
          flags = if frame.ack then flag_ack else 0;
          stream_identifier = 0;
        }))

unfoldable pub http2_send_ping_frame : Http2PingFrame → Sent
http2_send_ping_frame frame =
    if length frame.opaque_data == 8
    then http2_send_raw_frame
        (record {
          length = 8;
          type = type_ping;
          flags = if frame.ack then flag_ack else 0;
          stream_identifier = 0;
        })
        frame.opaque_data
    else error unique

unfoldable pub http2_send_data_frame : Http2DataFrame → Sent
http2_send_data_frame frame =
    http2_send_raw_frame
      (record {
        length = u24 (length frame.content);
        type = type_data;
        flags = if frame.is_end then flag_end_stream else 0;
        stream_identifier = frame.identifier;
      })
      frame.content

-- A priority is not sent: that there is none is an assertion only.
unfoldable pub http2_send_headers_frame : Http2HeadersFrame → Sent
http2_send_headers_frame frame =
    http2_send_raw_frame
      (record {
        length = u24 (length frame.block_fragment);
        type = type_headers;
        flags =
            bit_or (if frame.end_stream then flag_end_stream else 0)
              (if frame.end_headers then flag_end_headers else 0);
        stream_identifier = frame.identifier;
      })
      frame.block_fragment

unfoldable pub http2_send_continuation_frame : Http2ContinuationFrame → Sent
http2_send_continuation_frame frame =
    http2_send_raw_frame
      (record {
        length = u24 (length frame.block_fragment);
        type = type_continuation;
        flags = if frame.end_headers then flag_end_headers else 0;
        stream_identifier = frame.identifier;
      })
      frame.block_fragment

-- `http2_send_connection_error`: the text of the error is the debug data.
unfoldable pub http2_send_connection_error : Http2Identifier → ℕ → String → Sent
http2_send_connection_error last_stream_id error_code text =
    http2_send_goaway_frame last_stream_id error_code (text_bytes text)

unfoldable pub http2_send_stream_error : ℕ → Http2Identifier → Sent
http2_send_stream_error error_code stream_identifier =
    http2_send_rst_stream_frame (record { error_code = error_code; identifier = stream_identifier })
