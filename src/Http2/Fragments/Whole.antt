-- ===== src/Http2/Fragments/Whole.antt =====
-- A body and a header block that src/http/v2.c sends, as a parser reads them.
use my_simple_c_http_server.Prelude.{
  ℕ, suc, ◌-◌, ◌^◌, ◌≤◌, ◌<◌, ◌≡◌, refl, ◌≢◌, Bool, false, List, ◌++◌, ◌==◌, if◌then◌else◌,
  Bool-cases, inl, inr, Bytes, length, arith, ok,
}
use my_simple_c_http_server.Http2.Types.{
  Http2Identifier, Http2Settings, Http2Frame, data_frame, headers_frame, continuation_frame,
  default_stream_priority_ext,
}
use my_simple_c_http_server.Http2.Context.{Http2Context}
use my_simple_c_http_server.Http2.Send.{
  http2_send_data_frame, http2_send_headers_frame, http2_send_continuation_frame,
}
use my_simple_c_http_server.Http2.RoundTrip.Sends.{http2_send_frame, IsSendable}
use my_simple_c_http_server.Http2.Fragments.{
  http2_send_data, http2_send_headers, get_max_headers_or_continuation_contentsize,
}
use my_simple_c_http_server.Http2.Fragments.Reads.{
  Reads, concat, frames_of, Sends, send_blocks-Sends,
}

-- The frames of a body.
abbrev pub data_of : Http2Identifier → ℕ → Bytes → Bool → Http2Frame
data_of identifier offset content is_end =
    data_frame (record { content = content; is_end = is_end; identifier = identifier })

-- The frames of a header block: HEADERS at the offset 0, and CONTINUATION behind it.
abbrev pub headers_of : Http2Identifier → Bool → ℕ → Bytes → Bool → Http2Frame
headers_of identifier end_stream offset fragment end_headers =
    if offset == 0
    then headers_frame (record {
      priority_opt = record { has_priority = false; priority = default_stream_priority_ext 0 };
      block_fragment = fragment;
      identifier = identifier;
      end_stream = end_stream;
      end_headers = end_headers;
    })
    else continuation_frame
        (record { block_fragment = fragment; identifier = identifier; end_headers = end_headers })

module _ (peer : Http2Context) (identifier : Http2Identifier) (settings : Http2Settings)
    (buffer rest : Bytes) (stream : identifier ≢ 0) (small : identifier < 2 ^ 31)
    (short : length buffer < 2 ^ 63) (below : settings.max_frame_size < 2 ^ 24)
    (agreed : settings.max_frame_size ≤ peer.settings.max_frame_size) where
  -- Sending a body on a stream ends and succeeds, and a peer that takes frames of the size reads from
  -- it DATA frames whose contents make up the body; the last of them, and no other, ends the stream.
  -- The frame size is positive and below 2 ^ 24, and the body is below 2 ^ 63 bytes.
  pub parse-http2_send_data :
      0 < settings.max_frame_size
      → (sent : Bytes) × (http2_send_data identifier settings buffer ≡ ok sent)
        × ((contents : List Bytes) × Reads peer rest
              (sent ++ rest)
              (frames_of (data_of identifier) 0 contents)
            × (concat contents ≡ buffer))
  unfolding http2_send_data Sends
  parse-http2_send_data positive =
      let (sent, runs, (contents, reads, all, _)) =
        send_blocks-Sends peer (data_of identifier)
          (λ offset content is_end.
            http2_send_data_frame
              (record { content = content; is_end = is_end; identifier = identifier }))
          (λ o b e. refl) settings.max_frame_size positive (omega arith)
          (λ o b e h. record {
            stream = stream;
            identifier_31 = small;
            length_24 = omega arith;
            fits = omega arith;
          })
          buffer short rest (suc (length buffer)) 0 (omega arith) (omega arith) in
      (sent, runs, (contents, reads, all))

  fragment-IsSendable :
      (end_stream : Bool) (o : ℕ) (b : Bytes) (e : Bool)
      → length b ≤ settings.max_frame_size - 6
      → IsSendable peer (headers_of identifier end_stream o b e)
  fragment-IsSendable end_stream o b e h = elim (Bool-cases (o == 0)) [
    | inl first ↦ rw first (
      record {
        stream = stream;
        identifier_31 = small;
        length_24 = omega arith;
        fits = omega arith;
      },
      refl,
    )
    | inr later ↦ rw later (record {
      stream = stream;
      identifier_31 = small;
      length_24 = omega arith;
      fits = omega arith;
    })
  ]

  sends :
      (end_stream : Bool) (o : ℕ) (b : Bytes) (e : Bool)
      → (if o == 0
          then http2_send_headers_frame (record {
            priority_opt = record {
              has_priority = false;
              priority = default_stream_priority_ext 0;
            };
            block_fragment = b;
            identifier = identifier;
            end_stream = end_stream;
            end_headers = e;
          })
          else http2_send_continuation_frame
              (record { block_fragment = b; identifier = identifier; end_headers = e }))
        ≡ http2_send_frame (headers_of identifier end_stream o b e)
  sends end_stream o b e = elim (Bool-cases (o == 0)) [
    | inl first ↦ rw first refl
    | inr later ↦ rw later refl
  ]

  payload_size :
      6 < settings.max_frame_size
      → get_max_headers_or_continuation_contentsize settings ≡ settings.max_frame_size - 6
  payload_size room = omega arith

  -- Sending a header block ends and succeeds, and the peer reads from it a HEADERS frame and then
  -- CONTINUATION frames on the same stream, whose fragments make up the block; the last of the
  -- frames, and no other, ends the headers. The frame size is above 6 and below 2 ^ 24.
  pub parse-http2_send_headers :
      (end_stream : Bool)
      → 6 < settings.max_frame_size
      → (sent : Bytes) × (http2_send_headers identifier settings buffer end_stream ≡ ok sent)
        × ((fragments : List Bytes) × Reads peer rest
              (sent ++ rest)
              (frames_of (headers_of identifier end_stream) 0 fragments)
            × (concat fragments ≡ buffer))
  unfolding http2_send_headers Sends
  parse-http2_send_headers end_stream room =
      let (sent, runs, (fragments, reads, all, _)) =
        send_blocks-Sends peer (headers_of identifier end_stream) _ (sends end_stream)
          (settings.max_frame_size - 6) (omega arith) (omega arith) (fragment-IsSendable end_stream)
          buffer short rest (suc (length buffer)) 0 (omega arith) (omega arith) in
      rw (http2_send_headers, payload_size room) (sent, runs, (fragments, reads, all))
