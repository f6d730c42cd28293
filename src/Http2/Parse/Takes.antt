-- ===== src/Http2/Parse/Takes.antt =====
-- What parse_http2_frame of src/http/v2.c takes from the reader, and what it refuses.
use my_simple_c_http_server.Prelude.{
  ℕ, ◌+◌, ◌-◌, ◌^◌, ◌≤◌, ◌<◌, ◌≡◌, refl, ap, ◌≢◌, false, not, List, [], ◌∷◌, ltb, ◌==◌, Bytes,
  length, drop, length-take, length-drop, arith, tests, Ends, Ends-bind, Ends-if,
}
use my_simple_c_http_server.Http2.Types.{
  Http2RawHeader, Http2FramePriority, Http2FramePriorityOptional, Http2SettingSingleValue,
  Http2Frame, data_frame, headers_frame, priority_frame, rst_stream_frame, settings_frame,
  push_promise_frame, continuation_frame, flag_end_headers, flag_priority, flag_ack,
  initial_window_size_id, max_frame_size_id,
}
use my_simple_c_http_server.Http2.Context.{Http2Context}
use my_simple_c_http_server.Http2.Parse.Common.{FrameError, has_other_flags, has_flag}
use my_simple_c_http_server.Http2.Parse.Padded.{
  parse_http2_data_frame, read_priority, parse_http2_headers_frame,
}
use my_simple_c_http_server.Http2.Parse.Plain.{
  parse_http2_priority_frame, parse_http2_rst_stream_frame, parse_http2_ping_frame,
  parse_http2_goaway_frame, parse_http2_window_update_frame, parse_http2_continuation_frame,
}
use my_simple_c_http_server.Http2.Parse.Reads.{
  IsRefusal, Took, Skipped, Skipped-Skipped, skip_none, Shared, connection_error-Ends, read_or-Ends,
  read_padding_length-Ends, read_padding-Ends, deserialize_u32-Ends, deserialize_identifier-Ends,
  priority_info-Ends,
}

-- A setting whose value is one that the protocol allows, but for the frame size 2 ^ 24.
abbrev pub IsSetting : Http2SettingSingleValue → Type 0
IsSetting entry =
    (entry.value < 2 ^ 32)
    × (entry.identifier ≡ max_frame_size_id → (2 ^ 14 ≤ entry.value) × (entry.value ≤ 2 ^ 24))
    × (entry.identifier ≡ initial_window_size_id → entry.value < 2 ^ 31)

abbrev pub AreSettings : List Http2SettingSingleValue → Type 0
AreSettings [] = Unit
AreSettings (entry ∷ entries) = IsSetting entry × AreSettings entries

-- A frame of a type that a stream identifier goes with has one; the settings are in range.
abbrev pub IsReceived : Http2Frame → Type 0
IsReceived (data_frame frame) = frame.identifier ≢ 0
IsReceived (headers_frame frame) = frame.identifier ≢ 0
IsReceived (priority_frame frame) = frame.identifier ≢ 0
IsReceived (rst_stream_frame frame) = frame.identifier ≢ 0
IsReceived (continuation_frame frame) = frame.identifier ≢ 0
IsReceived (settings_frame frame) = AreSettings frame.entries
IsReceived (push_promise_frame frame) = frame.identifier ≡ 0
IsReceived _ = Unit

-- A frame that takes `n` bytes of the reader.
abbrev pub Received : ℕ → Bytes → Http2Frame × Bytes → Type 0
Received n reader (frame, rest) = IsReceived frame × Skipped n reader rest

pub nonzero : (n : ℕ) → (n == 0) ≡ false → n ≢ 0
nonzero n h = ground arith

pub exactly :
    {n k : ℕ} {r rest : Bytes} → not (n == k) ≡ false → Skipped k r rest → Skipped n r rest
exactly {n} {k} size skipped = let e : n ≡ k = ground arith in rw e skipped

module _ (context : Http2Context) (header : Http2RawHeader) (reader : Bytes) where
  open header use {flags, stream_identifier}

  abbrev pub Refusal : FrameError → Type 0
  Refusal = IsRefusal context

  abbrev pub Goal : Http2Frame × Bytes → Type 0
  Goal = Received header.length reader

  pub data-Ends : Ends Refusal Goal (parse_http2_data_frame context header reader)
  unfolding parse_http2_data_frame
  data-Ends =
      Ends-if Refusal Goal (stream_identifier == 0) _ _ (λ _. connection_error-Ends _ _ _ _ refl)
        λ stream.
          Ends-if Refusal Goal (has_other_flags flags 0x09) _ _
            (λ _. connection_error-Ends _ _ _ _ refl)
            λ _.
              Ends-bind Refusal (Shared header.length reader) Goal _ _
                (read_padding_length-Ends context flags header.length reader)
                λ ((p, l), rest) (k, shared, skip).
                  Ends-bind Refusal (Took l rest) Goal _ _
                    (read_or-Ends context l "Failed to read enough data for the frame data" rest
                      refl)
                    λ (content, rest') (_, taken).
                      Ends-bind Refusal (Skipped p rest') Goal _ _
                        (read_padding-Ends context p rest')
                        λ after padded. (
                          nonzero stream_identifier stream,
                          Skipped-Skipped (Skipped-Skipped skip taken refl) padded shared,
                        )

  -- The payload length without the priority, `l` of `n`.
  abbrev Prioritised : ℕ → Bytes → (Http2FramePriorityOptional × ℕ) × Bytes → Type 0
  Prioritised n r ((priority_opt, l), rest) = (k : ℕ) × (k + l ≡ n) × Skipped k r rest

  priority-Ends :
      (n : ℕ) (r : Bytes) → Ends Refusal (Prioritised n r) (read_priority context header n r)
  unfolding read_priority
  priority-Ends n r =
      Ends-if Refusal (Prioritised n r) (not (has_flag flags flag_priority)) _ _
        (λ _. (0, omega arith, skip_none r))
        λ _.
          Ends-if Refusal (Prioritised n r) (ltb n 5) _ _ (λ _. connection_error-Ends _ _ _ _ refl)
            λ long.
              Ends-bind Refusal (Took 5 r) (Prioritised n r) _ _
                (read_or-Ends context 5 "Failed to read enough data for the frame header" r refl)
                λ (info, rest) (same, taken).
                  let size : length info ≡ 5 =
                    omega (arith, ap length same, length-take 5 r, taken.enough) in
                  Ends-bind Refusal (λ (p : Http2FramePriority). p.dependency_identifier < 2 ^ 31)
                    (Prioritised n r) _ _ (priority_info-Ends Refusal info (omega arith))
                    λ priority _. (5, omega tests, taken)

  pub headers-Ends : Ends Refusal Goal (parse_http2_headers_frame context header reader)
  unfolding parse_http2_headers_frame
  headers-Ends =
      Ends-if Refusal Goal (stream_identifier == 0) _ _ (λ _. connection_error-Ends _ _ _ _ refl)
        λ stream.
          Ends-if Refusal Goal (has_other_flags flags 0x2d) _ _
            (λ _. connection_error-Ends _ _ _ _ refl)
            λ _.
              Ends-bind Refusal (Shared header.length reader) Goal _ _
                (read_padding_length-Ends context flags header.length reader)
                λ ((p, l), rest) (k, shared, skip).
                  Ends-bind Refusal (Prioritised l rest) Goal _ _ (priority-Ends l rest)
                    λ ((priority_opt, l'), rest') (j, sum, skipped).
                      Ends-bind Refusal (Took l' rest') Goal _ _
                        (read_or-Ends context l' "Failed to read enough data for the frame data"
                          rest' refl)
                        λ (fragment, rest'') (_, taken).
                          Ends-bind Refusal (Skipped p rest'') Goal _ _
                            (read_padding-Ends context p rest'')
                            λ after padded. (
                              nonzero stream_identifier stream,
                              Skipped-Skipped
                                  (Skipped-Skipped skip (Skipped-Skipped skipped taken sum) refl)
                                  padded shared,
                            )

  pub priority_frame-Ends : Ends Refusal Goal (parse_http2_priority_frame context header reader)
  unfolding parse_http2_priority_frame
  priority_frame-Ends =
      Ends-if Refusal Goal (stream_identifier == 0) _ _ (λ _. connection_error-Ends _ _ _ _ refl)
        λ stream.
          Ends-if Refusal Goal (has_other_flags flags 0) _ _
            (λ _. connection_error-Ends _ _ _ _ refl)
            λ _.
              Ends-if Refusal Goal (not (header.length == 5)) _ _
                (λ _. connection_error-Ends _ _ _ _ refl)
                λ size.
                  Ends-bind Refusal (Took 5 reader) Goal _ _
                    (read_or-Ends context 5 "Failed to read enough data for the frame header" reader
                      refl)
                    λ (info, rest) (same, taken).
                      let five : length info ≡ 5 =
                        omega (arith, ap length same, length-take 5 reader, taken.enough) in
                      Ends-bind Refusal
                        (λ (p : Http2FramePriority). p.dependency_identifier < 2 ^ 31) Goal _ _
                        (priority_info-Ends Refusal info (omega arith))
                        λ priority _. (nonzero stream_identifier stream, exactly size taken)

  pub rst_stream-Ends : Ends Refusal Goal (parse_http2_rst_stream_frame context header reader)
  unfolding parse_http2_rst_stream_frame
  rst_stream-Ends =
      Ends-if Refusal Goal (stream_identifier == 0) _ _ (λ _. connection_error-Ends _ _ _ _ refl)
        λ stream.
          Ends-if Refusal Goal (has_other_flags flags 0) _ _
            (λ _. connection_error-Ends _ _ _ _ refl)
            λ _.
              Ends-if Refusal Goal (not (header.length == 4)) _ _
                (λ _. connection_error-Ends _ _ _ _ refl)
                λ size.
                  Ends-bind Refusal (Took 4 reader) Goal _ _
                    (read_or-Ends context 4 "Failed to read enough data for the frame header" reader
                      refl)
                    λ (code, rest) (same, taken).
                      let four : length code ≡ 4 =
                        omega (arith, ap length same, length-take 4 reader, taken.enough) in
                      Ends-bind Refusal (λ (v : ℕ). v < 2 ^ 32) Goal _ _
                        (deserialize_u32-Ends Refusal code (omega arith))
                        λ error_code _. (nonzero stream_identifier stream, exactly size taken)

  pub ping-Ends : Ends Refusal Goal (parse_http2_ping_frame context header reader)
  unfolding parse_http2_ping_frame
  ping-Ends =
      Ends-if Refusal Goal (not (stream_identifier == 0)) _ _
        (λ _. connection_error-Ends _ _ _ _ refl)
        λ _.
          Ends-if Refusal Goal (has_other_flags flags flag_ack) _ _
            (λ _. connection_error-Ends _ _ _ _ refl)
            λ _.
              Ends-if Refusal Goal (not (header.length == 8)) _ _
                (λ _. connection_error-Ends _ _ _ _ refl)
                λ size.
                  Ends-bind Refusal (Took 8 reader) Goal _ _
                    (read_or-Ends context 8 "Failed to read enough data for the frame header" reader
                      refl)
                    λ (opaque, rest) (same, taken). (tt, exactly size taken)

  pub goaway-Ends : Ends Refusal Goal (parse_http2_goaway_frame context header reader)
  unfolding parse_http2_goaway_frame
  goaway-Ends =
      Ends-if Refusal Goal (not (stream_identifier == 0)) _ _
        (λ _. connection_error-Ends _ _ _ _ refl)
        λ _.
          Ends-if Refusal Goal (has_other_flags flags 0) _ _
            (λ _. connection_error-Ends _ _ _ _ refl)
            λ _.
              Ends-if Refusal Goal (ltb header.length 8) _ _
                (λ _. connection_error-Ends _ _ _ _ refl)
                λ long.
                  Ends-bind Refusal (Took 8 reader) Goal _ _
                    (read_or-Ends context 8 "Failed to read enough data for the frame data" reader
                      refl)
                    λ (frame_data, rest) (same, taken).
                      let eight : length frame_data ≡ 8 =
                        omega (arith, ap length same, length-take 8 reader, taken.enough) in
                      Ends-bind Refusal (λ (v : ℕ). v < 2 ^ 31) Goal _ _
                        (deserialize_identifier-Ends Refusal frame_data (omega arith))
                        λ last _.
                          Ends-bind Refusal (λ (v : ℕ). v < 2 ^ 32) Goal _ _
                            (deserialize_u32-Ends Refusal (drop 4 frame_data)
                              (omega (arith, length-drop 4 frame_data)))
                            λ error_code _.
                              Ends-bind Refusal (Took (header.length - 8) rest) Goal _ _
                                (read_or-Ends context (header.length - 8)
                                  "Failed to read enough data for the frame data" rest refl)
                                λ (debug, rest') (_, taken').
                                  (tt, Skipped-Skipped taken taken' (omega tests))

  pub window_update-Ends : Ends Refusal Goal (parse_http2_window_update_frame context header reader)
  unfolding parse_http2_window_update_frame
  window_update-Ends =
      Ends-if Refusal Goal (has_other_flags flags 0) _ _ (λ _. connection_error-Ends _ _ _ _ refl)
        λ _.
          Ends-if Refusal Goal (not (header.length == 4)) _ _
            (λ _. connection_error-Ends _ _ _ _ refl)
            λ size.
              Ends-bind Refusal (Took 4 reader) Goal _ _
                (read_or-Ends context 4 "Failed to read enough data for the frame header" reader
                  refl)
                λ (frame_data, rest) (same, taken).
                  let four : length frame_data ≡ 4 =
                    omega (arith, ap length same, length-take 4 reader, taken.enough) in
                  Ends-bind Refusal (λ (v : ℕ). v < 2 ^ 31) Goal _ _
                    (deserialize_identifier-Ends Refusal frame_data (omega arith))
                    λ increment _. (tt, exactly size taken)

  pub continuation-Ends : Ends Refusal Goal (parse_http2_continuation_frame context header reader)
  unfolding parse_http2_continuation_frame
  continuation-Ends =
      Ends-if Refusal Goal (stream_identifier == 0) _ _ (λ _. connection_error-Ends _ _ _ _ refl)
        λ stream.
          Ends-if Refusal Goal (has_other_flags flags flag_end_headers) _ _
            (λ _. connection_error-Ends _ _ _ _ refl)
            λ _.
              Ends-bind Refusal (Took header.length reader) Goal _ _
                (read_or-Ends context header.length "Failed to read enough data for the frame data"
                  reader refl)
                λ (fragment, rest) (_, taken). (nonzero stream_identifier stream, taken)
