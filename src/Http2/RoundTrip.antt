-- ===== src/Http2/RoundTrip.antt =====
-- The frames that src/http/v2.c sends, as its parser reads them.
pub mod Frames
pub mod Sends
use my_simple_c_http_server.Prelude.{
  ℕ, zero, suc, ◌+◌, ◌-◌, ◌*◌, ◌/◌, ◌%◌, ◌^◌, ◌≤◌, ◌<◌, ◌≡◌, refl, sym, ◌∙◌, ap, ◌≢◌, Bool, true,
  false, List, [], ◌∷◌, ◌++◌, append_assoc, length, length-append, take, drop, take-length_append,
  drop-length_append, ltb, leb, ◌==◌, ltb-false, le→leb, ==_iff, if◌then◌else◌, Bytes, arith, tests,
  Outcome, ok, error, fault, ◌>>=◌,
}
use my_simple_c_http_server.Serialization.{serialize_u32_host_to_be, deserialize_u32_be_to_host}
use my_simple_c_http_server.Serialization.Laws.{
  bytes_32, be_32, serialize_u32_be, deserialize_u32_be,
}
use my_simple_c_http_server.Http2.Types.{
  Http2Identifier, Http2RawHeader, Http2DataFrame, Http2HeadersFrame, Http2FramePriorityOptional,
  Http2Frame, data_frame, headers_frame, rst_stream_frame, settings_frame, ping_frame, goaway_frame,
  continuation_frame, priority_frame, push_promise_frame, window_update_frame,
  default_stream_priority_ext,
}
use my_simple_c_http_server.Http2.Context.{Http2Context}
use my_simple_c_http_server.Http2.Send.{
  host, Sent, SendError, unique, header_bytes, serialize_identifier, http2_send_raw_frame,
  http2_send_data_frame, http2_send_headers_frame, http2_send_continuation_frame,
  http2_send_rst_stream_frame, http2_send_ping_frame, http2_send_settings_frame,
  http2_send_goaway_frame,
}
use my_simple_c_http_server.Http2.Send.Written.{
  raw_sent, goaway_data, goaway_sent, length-serialize_u32, length-serialize_identifier,
}
use my_simple_c_http_server.Http2.Parse.{
  FrameError, read_amount, read_or, deserialize_identifier, parse_http2_raw_header,
  parse_frame_payload, parse_http2_frame,
}

-- A header whose fields fit their bits.
pub record IsHeader (header : Http2RawHeader) : Type 0 where
  pub length_24 : header.length < 2 ^ 24
  pub identifier_31 : header.stream_identifier < 2 ^ 31

pub deserialize-bytes :
    {E : Type 0} (v : ℕ) (rest : Bytes)
    → v < 2 ^ 32
    → deserialize_u32_be_to_host {E = E} host (bytes_32 v ++ rest) ≡ ok v
deserialize-bytes v rest h =
    deserialize_u32_be host (v / 2 ^ 24 % 256) (v / 2 ^ 16 % 256) (v / 2 ^ 8 % 256) (v % 256) rest
      (omega arith) (omega arith) (omega arith) (omega arith)
    ∙ ap ok (omega arith)

pub identifier-bytes :
    (v : ℕ) (rest : Bytes)
    → v < 2 ^ 31
    → deserialize_identifier (serialize_identifier v ++ rest) ≡ ok v
unfolding deserialize_identifier serialize_identifier
identifier-bytes v rest h =
    let small : v % 2 ^ 31 ≡ v = omega arith in
    rw
      (
        deserialize_identifier,
        serialize_identifier,
        small,
        serialize_u32_be host v,
        deserialize-bytes {E = FrameError} v rest (omega arith),
        small,
      )
      refl

pub identifier_alone : (v : ℕ) → v < 2 ^ 31 → deserialize_identifier (serialize_identifier v) ≡ ok v
unfolding deserialize_identifier serialize_identifier
identifier_alone v h =
    let small : v % 2 ^ 31 ≡ v = omega arith in
    rw
      (
        deserialize_identifier,
        serialize_identifier,
        small,
        serialize_u32_be host v,
        deserialize-bytes {E = FrameError} v [] (omega arith),
        small,
      )
      refl

raw_header-sent :
    (header : Http2RawHeader)
    → IsHeader header
    → parse_http2_raw_header (header_bytes header) ≡ ok header
unfolding parse_http2_raw_header header_bytes
raw_header-sent header is =
    let size : be_32 0 (header.length / 2 ^ 16 % 256) (header.length / 2 ^ 8 % 256)
          (header.length % 256)
        ≡ header.length =
      omega (arith, is.length_24) in
    rw
      (
        header_bytes,
        serialize_u32_be host header.length,
        deserialize_u32_be {E = FrameError} host 0 (header.length / 2 ^ 16 % 256)
            (header.length / 2 ^ 8 % 256) (header.length % 256) [] (omega arith) (omega arith)
            (omega arith) (omega arith),
        identifier_alone header.stream_identifier is.identifier_31,
        size,
      )
      refl

length-header_bytes : (header : Http2RawHeader) → length (header_bytes header) ≡ 9
unfolding header_bytes serialize_identifier
length-header_bytes header =
    rw
      (
        header_bytes,
        serialize_identifier,
        serialize_u32_be host header.length,
        serialize_u32_be host (header.stream_identifier % 2 ^ 31),
      )
      refl

-- A read of what stands in front.
pub read_front :
    (context : Http2Context) (n : ℕ) (message : _) (front rest : Bytes)
    → length front ≡ n
    → read_or context n message (front ++ rest) ≡ ok (front, rest)
unfolding read_or read_amount
read_front context n message front rest size =
    let enough : leb (length front) (length (front ++ rest)) ≡ true =
      le→leb _ _ (omega (arith, length-append front rest)) in
    rw (← size) (
      rw
        (read_or, read_amount, enough, take-length_append front rest, drop-length_append front rest)
        refl)

module _ (context : Http2Context) (header : Http2RawHeader) (is : IsHeader header)
    (fits : header.length ≤ context.settings.max_frame_size) (payload rest : Bytes)
    (sized : length payload ≡ header.length) where
  -- A sent frame is read as its payload, under its header.
  pub frame-sent :
      parse_http2_frame context ((header_bytes header ++ payload) ++ rest)
      ≡ parse_frame_payload context header (payload ++ rest)
  unfolding parse_http2_frame
  frame-sent = rw (append_assoc (header_bytes header) payload rest) (
      rw
        (
          parse_http2_frame,
          read_front context 9 "Failed to read enough data for the frame header"
              (header_bytes header) (payload ++ rest) (length-header_bytes header),
          raw_header-sent header is,
          ltb-false _ _ fits,
        )
        refl)
