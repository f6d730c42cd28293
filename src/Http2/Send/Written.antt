-- ===== src/Http2/Send/Written.antt =====
-- What the functions of src/http/v2.c that send a frame write.
use my_simple_c_http_server.Prelude.{
  ℕ, ◌+◌, ◌%◌, ◌^◌, ◌<◌, ◌≡◌, refl, ◌++◌, ==_iff, Bytes, length, arith, ok,
}
use my_simple_c_http_server.Serialization.{serialize_u32_host_to_be}
use my_simple_c_http_server.Http2.Types.{Http2Identifier, Http2RawHeader, type_goaway}
use my_simple_c_http_server.Http2.Send.{
  host, u32, header_bytes, serialize_identifier, http2_send_raw_frame, http2_send_goaway_frame,
}

pub raw_sent :
    (header : Http2RawHeader) (d : Bytes)
    → length d ≡ header.length
    → http2_send_raw_frame header d ≡ ok (header_bytes header ++ d)
unfolding http2_send_raw_frame
raw_sent header d h = rw ((==_iff (length d) header.length).1 h) refl

pub length-serialize_u32 : (v : ℕ) → length (serialize_u32_host_to_be host v) ≡ 4
unfolding serialize_u32_host_to_be
length-serialize_u32 v = refl

pub length-serialize_identifier : (v : ℕ) → length (serialize_identifier v) ≡ 4
unfolding serialize_identifier
length-serialize_identifier v = length-serialize_u32 (v % 2 ^ 31)

-- The data of a GOAWAY frame.
abbrev pub goaway_data : Http2Identifier → ℕ → Bytes → Bytes
goaway_data last_stream_id error_code debug_data =
    serialize_identifier last_stream_id ++ serialize_u32_host_to_be host error_code ++ debug_data

pub length-goaway_data :
    (last_stream_id error_code : ℕ) (debug_data : Bytes)
    → length (goaway_data last_stream_id error_code debug_data) ≡ length debug_data + 8
unfolding serialize_identifier serialize_u32_host_to_be
length-goaway_data last_stream_id error_code debug_data = omega arith

pub goaway_sent :
    (last_stream_id error_code : ℕ) (debug_data : Bytes)
    → length debug_data + 8 < 2 ^ 24
    → http2_send_goaway_frame last_stream_id error_code debug_data
      ≡ ok (
          header_bytes (record {
            length = length debug_data + 8;
            type = type_goaway;
            flags = 0;
            stream_identifier = 0;
          })
          ++ goaway_data last_stream_id error_code debug_data)
unfolding http2_send_goaway_frame
goaway_sent last_stream_id error_code debug_data h =
    let small : u32 (length debug_data + 8) ≡ length debug_data + 8 = omega arith in
    let small' : (length debug_data + 8) % 2 ^ 24 ≡ length debug_data + 8 = omega arith in
    let size = length-goaway_data last_stream_id error_code debug_data in
    rw (http2_send_goaway_frame, small, small', (==_iff _ _).1 size) (raw_sent _ _ size)
