-- ===== src/Http2/Fragments.antt =====
-- http2_send_headers and http2_send_data of src/http/v2.c, which cut a buffer into frames. What was
-- sent before an error is not kept.
pub mod Reads
pub mod Whole
use my_simple_c_http_server.Prelude.{
  ℕ, zero, suc, ◌+◌, ◌-◌, ◌^◌, Bool, false, List, [], ◌∷◌, ◌++◌, ltb, leb, ◌==◌, if◌then◌else◌,
  Bytes, length, take, drop, u64, Outcome, ok, fault, stuck, ◌>>=◌,
}
use my_simple_c_http_server.Http2.Types.{
  Http2Identifier, Http2Settings, default_stream_priority_ext,
}
use my_simple_c_http_server.Http2.Send.{
  Sent, http2_send_data_frame, http2_send_headers_frame, http2_send_continuation_frame,
}

-- `((offset + max_size) >= buffer.size) ? buffer.size - offset : max_size`
abbrev pub block_size : ℕ → ℕ → Bytes → ℕ
block_size offset max_size buffer =
    if leb (length buffer) (u64 (offset + max_size)) then length buffer - offset else max_size

-- The loop of both functions; `send` is what is done with the block at an offset, and whether it is
-- the last.
unfoldable pub send_blocks : (ℕ → Bytes → Bool → Sent) → ℕ → ℕ → Bytes → ℕ → Sent
send_blocks send max_size zero buffer offset = stuck
send_blocks send max_size (suc fuel) buffer offset =
    let size = block_size offset max_size buffer in
    let later = send_blocks send max_size fuel buffer (offset + size) in
    if ltb offset (length buffer)
    then (send offset (take size (drop offset buffer)) (leb (length buffer) (offset + size))
        >>= λ sent. later >>= λ sent'. ok (sent ++ sent'))
    else ok []

-- A round sends at least one byte.
unfoldable pub http2_send_data : Http2Identifier → Http2Settings → Bytes → Sent
http2_send_data identifier settings buffer =
    send_blocks
      (λ offset content is_end.
        http2_send_data_frame
          (record { content = content; is_end = is_end; identifier = identifier }))
      settings.max_frame_size (suc (length buffer)) buffer 0

-- The size of a fragment: six bytes of a frame are for the fields that may stand in front. That there
-- is more room than these is an assertion only.
abbrev pub get_max_headers_or_continuation_contentsize : Http2Settings → ℕ
get_max_headers_or_continuation_contentsize settings = u64 (settings.max_frame_size + (2 ^ 64 - 6))

-- The first frame is HEADERS, the others are CONTINUATION.
unfoldable pub http2_send_headers : Http2Identifier → Http2Settings → Bytes → Bool → Sent
http2_send_headers identifier settings buffer headers_are_end_stream =
    send_blocks
      (λ offset block_fragment end_headers.
        if offset == 0
        then http2_send_headers_frame (record {
          priority_opt = record { has_priority = false; priority = default_stream_priority_ext 0 };
          block_fragment = block_fragment;
          identifier = identifier;
          end_stream = headers_are_end_stream;
          end_headers = end_headers;
        })
        else http2_send_continuation_frame (record {
          block_fragment = block_fragment;
          identifier = identifier;
          end_headers = end_headers;
        }))
      (get_max_headers_or_continuation_contentsize settings) (suc (length buffer)) buffer 0
