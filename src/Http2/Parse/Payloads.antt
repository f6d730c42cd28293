-- ===== src/Http2/Parse/Payloads.antt =====
-- The payloads of the frames that src/http/v2.c parses, by the type of the frame.
use mathlib.Core.Path.{subst}
use my_simple_c_http_server.Prelude.{
  ℕ, ◌+◌, ◌-◌, ◌%◌, ◌^◌, ◌≤◌, ◌<◌, ◌≡◌, refl, sym, ◌∙◌, ap, ◌≢◌, inl, inr, Bool, true, false, not,
  ◌&&◌, ◌||◌, List, [], ◌∷◌, ltb, ◌==◌, if◌then◌else◌, Bytes, String, length, length-take, arith,
  tests, ==_iff, Bool-cases, fault, Ends, Ends-bind, Ends-if, Ends-map_ok, Ends-Ensures, Ensures-if,
  Ensures, Ensures-bind,
}
use my_simple_c_http_server.Serialization.{deserialize_u32_be_to_host}
use my_simple_c_http_server.Http2.Types.{
  Http2RawHeader, Http2SettingSingleValue, Http2Frame, type_push_promise, flag_ack, enable_push_id,
  header_table_size_id, max_concurrent_streams_id, initial_window_size_id, max_frame_size_id,
  max_header_list_size_id, max_flow_control_window_size, max_max_frame_size,
  default_settings_max_frame_size,
}
use my_simple_c_http_server.Http2.Context.{Http2Context}
use my_simple_c_http_server.Http2.Parse.Common.{
  FrameError, has_other_flags, has_flag, connection_error, deserialize_identifier,
}
use my_simple_c_http_server.Http2.Parse.Padded.{parse_http2_push_promise_frame}
use my_simple_c_http_server.Http2.Parse.Settings.{
  check_setting, parse_settings_entries, parse_raw_http2_settings_frame, parse_http2_settings_frame,
}
use my_simple_c_http_server.Http2.Parse.Reads.{
  IsRefusal, IsShort, Took, skip_none, Shared, connection_error-Ends, read_or-Ends,
  read_padding_length-Ends, deserialize_u16-Ends, deserialize_u32-Ends, skip_none,
}
use my_simple_c_http_server.Http2.Parse.Plain.{parse_frame_payload}
use my_simple_c_http_server.Http2.Parse.Takes.{
  IsSetting, AreSettings, IsReceived, Received, exactly, data-Ends, headers-Ends,
  priority_frame-Ends, rst_stream-Ends, ping-Ends, goaway-Ends, window_update-Ends,
  continuation-Ends,
}

plain :
    (identifier value n : ℕ)
    → (identifier == n) ≡ true
    → n ≢ 4
    → n ≢ 5
    → value < 2 ^ 32
    → IsSetting (record { identifier = identifier; value = value })
plain identifier value n e p q small =
    let same : identifier ≡ n = (==_iff identifier n).0 e in
    (small, λ f. absurd (q (sym same ∙ f)), λ f. absurd (p (sym same ∙ f)))

window :
    (identifier value : ℕ)
    → (identifier == 4) ≡ true
    → ltb (2 ^ 31 - 1) value ≡ false
    → IsSetting (record { identifier = identifier; value = value })
window identifier value e le =
    let same : identifier ≡ 4 = (==_iff identifier 4).0 e in
    let small : value < 2 ^ 31 = omega tests in (omega arith, λ f. absurd (omega arith), λ f. small)

frame_size :
    (identifier value : ℕ)
    → (identifier == 5) ≡ true
    → (ltb 16777216 value || ltb value 16384) ≡ false
    → IsSetting (record { identifier = identifier; value = value })
frame_size identifier value e le =
    let same : identifier ≡ 5 = (==_iff identifier 5).0 e in
    let high : value ≤ 2 ^ 24 = ground arith in
    let low : 2 ^ 14 ≤ value = ground arith in
    (omega arith, λ f. (low, high), λ f. absurd (omega arith))

module _ (context : Http2Context) where
  abbrev Refusal : FrameError → Type 0
  Refusal = IsRefusal context

  abbrev Kept : ℕ → ℕ → Bool → Type 0
  Kept identifier value kept =
      kept ≡ true → IsSetting (record { identifier = identifier; value = value })

  -- A setting that is kept is in range.
  check_setting-Ends :
      (identifier value : ℕ)
      → value < 2 ^ 32
      → Ends Refusal (Kept identifier value) (check_setting context identifier value)
  unfolding check_setting
  check_setting-Ends identifier value small =
      Ends-if Refusal (Kept identifier value) (identifier == header_table_size_id) _ _
        (λ e _. plain identifier value 1 e (omega arith) (omega arith) small)
        λ _.
          Ends-if Refusal (Kept identifier value) (identifier == enable_push_id) _ _
            (λ e.
              Ends-if Refusal (Kept identifier value) (not (value == 0) && not (value == 1)) _ _
                (λ _. connection_error-Ends _ _ _ _ refl)
                λ _ _. plain identifier value 2 e (omega arith) (omega arith) small)
            λ _.
              Ends-if Refusal (Kept identifier value) (identifier == max_concurrent_streams_id) _ _
                (λ e _. plain identifier value 3 e (omega arith) (omega arith) small)
                λ _.
                  Ends-if Refusal (Kept identifier value) (identifier == initial_window_size_id) _ _
                    (λ e.
                      Ends-if Refusal (Kept identifier value)
                        (ltb max_flow_control_window_size value) _ _
                        (λ _. connection_error-Ends _ _ _ _ refl)
                        λ le _. window identifier value e le)
                    λ _.
                      Ends-if Refusal (Kept identifier value) (identifier == max_frame_size_id) _ _
                        (λ e.
                          Ends-if Refusal (Kept identifier value)
                            (ltb (max_max_frame_size + 1) value
                              || ltb value default_settings_max_frame_size)
                            _ _ (λ _. connection_error-Ends _ _ _ _ refl)
                            λ le _. frame_size identifier value e le)
                        λ _.
                          Ends-if Refusal (Kept identifier value)
                            (identifier == max_header_list_size_id) _ _
                            (λ e _. plain identifier value 6 e (omega arith) (omega arith) small)
                            λ _ h. cc

  settings_entries-Ends :
      (input : Bytes)
      → length input % 6 ≡ 0
      → Ends Refusal AreSettings (parse_settings_entries context input)
  unfolding parse_settings_entries
  settings_entries-Ends [] h = tt
  settings_entries-Ends (a ∷ []) h = absurd (omega arith)
  settings_entries-Ends (a ∷ b ∷ []) h = absurd (omega arith)
  settings_entries-Ends (a ∷ b ∷ c ∷ []) h = absurd (omega arith)
  settings_entries-Ends (a ∷ b ∷ c ∷ d ∷ []) h = absurd (omega arith)
  settings_entries-Ends (a ∷ b ∷ c ∷ d ∷ e ∷ []) h = absurd (omega arith)
  settings_entries-Ends (a ∷ b ∷ c ∷ d ∷ e ∷ f ∷ rest) h =
      Ends-bind Refusal (λ (v : ℕ). Unit {0}) AreSettings _ _
        (deserialize_u16-Ends Refusal a b (c ∷ d ∷ e ∷ f ∷ rest))
        λ identifier _.
          Ends-bind Refusal (λ (v : ℕ). v < 2 ^ 32) AreSettings _ _
            (deserialize_u32-Ends Refusal (c ∷ d ∷ e ∷ f ∷ rest) (omega arith))
            λ value small.
              Ends-bind Refusal (Kept identifier value) AreSettings _ _
                (check_setting-Ends identifier value small)
                λ kept is_setting.
                  Ends-bind Refusal AreSettings AreSettings _ _
                    (settings_entries-Ends rest (omega arith))
                    λ entries are. kept_entries kept entries is_setting are
    where
      kept_entries :
          {identifier value : ℕ} (kept : Bool) (entries : List Http2SettingSingleValue)
          → Kept identifier value kept
          → AreSettings entries
          → AreSettings (
              if kept
              then (record { identifier = identifier; value = value }) ∷ entries
              else entries)
      kept_entries true entries k are = (k refl, are)
      kept_entries false entries k are = are

  raw-Ends :
      (input : Bytes)
      → length input % 6 ≡ 0
      → Ends Refusal IsReceived (parse_raw_http2_settings_frame context false input)
  unfolding parse_raw_http2_settings_frame
  raw-Ends input h =
      Ends-if Refusal IsReceived (not (length input % 6 == 0)) _ _
        (λ _. connection_error-Ends _ _ _ _ refl)
        λ _.
          Ends-map_ok Refusal AreSettings IsReceived (parse_settings_entries context input) _
            (settings_entries-Ends input h) λ entries are. are

  settings-Ends :
      (header : Http2RawHeader) (reader : Bytes)
      → Ends Refusal
          (Received header.length reader)
          (parse_http2_settings_frame context header reader)
  unfolding parse_http2_settings_frame
  settings-Ends header reader =
      Ends-if Refusal (Received header.length reader) (not (header.stream_identifier == 0)) _ _
        (λ _. connection_error-Ends _ _ _ _ refl)
        λ _.
          Ends-if Refusal (Received header.length reader) (has_other_flags header.flags flag_ack) _
            _ (λ _. connection_error-Ends _ _ _ _ refl)
            λ _.
              Ends-if Refusal (Received header.length reader) (has_flag header.flags flag_ack) _ _
                (λ _.
                  Ends-if Refusal (Received header.length reader) (not (header.length == 0)) _ _
                    (λ _. connection_error-Ends _ _ _ _ refl)
                    λ size. (tt, exactly size (skip_none reader)))
                λ _.
                  Ends-if Refusal (Received header.length reader) (not (header.length % 6 == 0)) _ _
                    (λ _. connection_error-Ends _ _ _ _ refl)
                    λ six.
                      Ends-bind Refusal (Took header.length reader) (Received header.length reader)
                        _ _
                        (read_or-Ends context header.length
                          "Failed to read enough data for the frame data" reader refl)
                        λ (frame_data, rest) (same, taken).
                          let size : length frame_data ≡ header.length = omega (
                            arith,
                            ap length same,
                            length-take header.length reader,
                            taken.enough,
                          ) in
                          Ends-bind Refusal IsReceived (Received header.length reader) _ _
                            (raw-Ends frame_data (ground arith)) λ frame received. (received, taken)

short_identifier : (bytes : Bytes) → length bytes ≡ 1 → deserialize_identifier bytes ≡ fault
unfolding deserialize_identifier deserialize_u32_be_to_host
short_identifier [] h = absurd (omega arith)
short_identifier (a ∷ []) h = refl
short_identifier (a ∷ b ∷ rest) h = absurd (omega arith)

module _ (context : Http2Context) (header : Http2RawHeader) (reader : Bytes) where
  abbrev Goal : Http2Frame × Bytes → Type 0
  Goal = Received header.length reader

  refused :
      (error_code : ℕ) (message : String)
      → IsShort message
      → Ensures (IsRefusal context) Goal (connection_error context error_code message)
  refused error_code message short =
      Ends-Ensures (IsRefusal context) Goal (connection_error context error_code message)
        (connection_error-Ends context Goal error_code message short)

  -- A push promise ends in an error, or reads past what it has taken.
  push_promise-Ensures :
      Ensures (IsRefusal context) Goal (parse_http2_push_promise_frame context header reader)
  unfolding parse_http2_push_promise_frame
  push_promise-Ensures =
      Ensures-if (IsRefusal context) Goal (not (header.stream_identifier == 0)) _ _
        (λ _. refused _ _ refl)
        λ _.
          Ensures-if (IsRefusal context) Goal (has_other_flags header.flags 0x0c) _ _
            (λ _. refused _ _ refl)
            λ _.
              Ensures-if (IsRefusal context) Goal (not context.settings.enable_push) _ _
                (λ _. refused _ _ refl)
                λ _.
                  Ensures-bind (IsRefusal context) (Shared header.length reader) Goal _ _
                    (Ends-Ensures (IsRefusal context) (Shared header.length reader) _
                      (read_padding_length-Ends context header.flags header.length reader))
                    λ ((p, l), rest) _.
                      Ensures-if (IsRefusal context) Goal (ltb l 4) _ _ (λ _. refused _ _ refl)
                        λ _.
                          Ensures-bind (IsRefusal context) (Took 1 rest) Goal _ _
                            (Ends-Ensures (IsRefusal context) (Took 1 rest) _ (
                              read_or-Ends context 1
                                "Failed to read enough data for the frame header" rest refl))
                            λ (bytes, rest') (same, taken).
                              let one : length bytes ≡ 1 =
                                omega (arith, ap length same, length-take 1 rest, taken.enough) in
                              rw (short_identifier bytes one) tt

  pub payload-Ends :
      header.type ≢ type_push_promise
      → Ends (IsRefusal context) Goal (parse_frame_payload context header reader)
  unfolding parse_frame_payload
  payload-Ends other =
      Ends-if (IsRefusal context) Goal (header.type == 0) _ _ (λ _. data-Ends context header reader)
        λ _.
          Ends-if (IsRefusal context) Goal (header.type == 1) _ _
            (λ _. headers-Ends context header reader)
            λ _.
              Ends-if (IsRefusal context) Goal (header.type == 2) _ _
                (λ _. priority_frame-Ends context header reader)
                λ _.
                  Ends-if (IsRefusal context) Goal (header.type == 3) _ _
                    (λ _. rst_stream-Ends context header reader)
                    λ _.
                      Ends-if (IsRefusal context) Goal (header.type == 4) _ _
                        (λ _. settings-Ends context header reader)
                        λ _.
                          Ends-if (IsRefusal context) Goal (header.type == 5) _ _
                            (λ e. absurd (other ((==_iff header.type 5).0 e)))
                            λ _.
                              Ends-if (IsRefusal context) Goal (header.type == 6) _ _
                                (λ _. ping-Ends context header reader)
                                λ _.
                                  Ends-if (IsRefusal context) Goal (header.type == 7) _ _
                                    (λ _. goaway-Ends context header reader)
                                    λ _.
                                      Ends-if (IsRefusal context) Goal (header.type == 8) _ _
                                        (λ _. window_update-Ends context header reader)
                                        λ _.
                                          Ends-if (IsRefusal context) Goal (header.type == 9) _ _
                                            (λ _. continuation-Ends context header reader)
                                            λ _. connection_error-Ends context Goal _ _ refl

  push_payload :
      header.type ≡ 5
      → parse_frame_payload context header reader
        ≡ parse_http2_push_promise_frame context header reader
  unfolding parse_frame_payload
  push_payload e = rw e refl

  pub payload-Ensures : Ensures (IsRefusal context) Goal (parse_frame_payload context header reader)
  payload-Ensures = elim (Bool-cases (header.type == 5)) [
    | inl e ↦
        let push : header.type ≡ 5 = (==_iff header.type 5).0 e in
        subst (Ensures (IsRefusal context) Goal) (sym (push_payload push)) push_promise-Ensures
    | inr e ↦
        Ends-Ensures (IsRefusal context) Goal (parse_frame_payload context header reader)
          (payload-Ends (λ push. nonfive e push))
  ]
    where
      nonfive : (header.type == 5) ≡ false → header.type ≡ 5 → ⊥
      nonfive e h = ground arith
