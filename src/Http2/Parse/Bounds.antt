-- ===== src/Http2/Parse/Bounds.antt =====
-- parse_http2_frame of src/http/v2.c on any input.
use my_simple_c_http_server.Prelude.{
  ◌+◌, ◌≤◌, ◌≡◌, refl, sym, ◌∙◌, ap, ◌≢◌, false, [], ◌∷◌, some, ltb, Bytes, length, get_elem?, take,
  length-take, arith, tests, ok, Ends, Ends-bind, Ends-if, Ends-mono, Ends-Ensures, Ensures-if,
  Ensures-mono, Ensures, Ensures-bind,
}
use my_simple_c_http_server.Serialization.{deserialize_u32_be_to_host}
use my_simple_c_http_server.Http2.Types.{Http2RawHeader, Http2Frame, type_push_promise}
use my_simple_c_http_server.Http2.Context.{Http2Context}
use my_simple_c_http_server.Http2.Parse.Common.{FrameError, deserialize_identifier}
use my_simple_c_http_server.Http2.Parse.Reads.{
  IsRefusal, Took, Skipped, Skipped-Skipped, connection_error-Ends, read_or-Ends,
}
use my_simple_c_http_server.Http2.Parse.Plain.{parse_http2_raw_header, parse_http2_frame}
use my_simple_c_http_server.Http2.Parse.Takes.{IsReceived, Received}
use my_simple_c_http_server.Http2.Parse.Payloads.{payload-Ends, payload-Ensures}

-- The header of the frame that the reader begins with, and what is left behind the frame.
abbrev pub Parses : Http2Context → Bytes → Http2Frame × Bytes → Type 0
Parses context reader (frame, rest) =
    (header : Http2RawHeader) × (parse_http2_raw_header (take 9 reader) ≡ ok header)
    × (header.length ≤ context.settings.max_frame_size)
    × IsReceived frame
    × Skipped (9 + header.length) reader rest

raw_header-Ends :
    (Q : FrameError → Type 0) (bytes : Bytes)
    → 9 ≤ length bytes
    → Ends Q
        (λ header.
          (parse_http2_raw_header bytes ≡ ok header) × (get_elem? bytes 3 ≡ some header.type))
        (parse_http2_raw_header bytes)
unfolding parse_http2_raw_header deserialize_identifier deserialize_u32_be_to_host
raw_header-Ends Q (a ∷ b ∷ c ∷ d ∷ e ∷ f ∷ g ∷ h ∷ i ∷ rest) le = (refl, refl)
raw_header-Ends Q _ le = absurd (omega arith)

fourth-take : (reader : Bytes) → get_elem? (take 9 reader) 3 ≡ get_elem? reader 3
fourth-take [] = refl
fourth-take (a ∷ []) = refl
fourth-take (a ∷ b ∷ []) = refl
fourth-take (a ∷ b ∷ c ∷ []) = refl
fourth-take (a ∷ b ∷ c ∷ d ∷ rest) = refl

-- What `parse_http2_raw_header` gives.
abbrev HasHeader : Bytes → Http2RawHeader → Type 0
HasHeader bytes header =
    (parse_http2_raw_header bytes ≡ ok header) × (get_elem? bytes 3 ≡ some header.type)

module _ (context : Http2Context) (reader : Bytes) where
  nine : (header_data rest : Bytes) → Took 9 reader (header_data, rest) → 9 ≤ length header_data
  nine header_data rest (same, taken) =
      omega (arith, ap length same, length-take 9 reader, taken.enough)

  parsed :
      (header : Http2RawHeader) (header_data rest : Bytes)
      → Took 9 reader (header_data, rest)
      → parse_http2_raw_header header_data ≡ ok header
      → ltb context.settings.max_frame_size header.length ≡ false
      → (r : Http2Frame × Bytes) → Received header.length rest r
      → Parses context reader r
  parsed header header_data rest (same, taken) h fits (frame, after) (received, skipped) = (
    header,
    ap parse_http2_raw_header (sym same) ∙ h,
    omega tests,
    received,
    Skipped-Skipped taken skipped refl,
  )

  -- Parsing a frame of a type other than PUSH_PROMISE ends without undefined behaviour, on any bytes
  -- and in any state: in an error that was sent to the peer in a GOAWAY frame, or in a frame that is
  -- in range. The frame is no longer than the settings allow, and the reader is left right behind it.
  pub parse_http2_frame-Ends :
      get_elem? reader 3 ≢ some type_push_promise
      → Ends (IsRefusal context) (Parses context reader) (parse_http2_frame context reader)
  unfolding parse_http2_frame
  parse_http2_frame-Ends other =
      Ends-bind (IsRefusal context) (Took 9 reader) (Parses context reader) _ _
        (read_or-Ends context 9 "Failed to read enough data for the frame header" reader refl)
        λ (header_data, rest) took.
          Ends-bind (IsRefusal context) (HasHeader header_data) (Parses context reader) _ _
            (raw_header-Ends (IsRefusal context) header_data (nine header_data rest took))
            λ header (h, type).
              Ends-if (IsRefusal context) (Parses context reader)
                (ltb context.settings.max_frame_size header.length) _ _
                (λ _. connection_error-Ends context _ _ _ refl)
                λ fits.
                  Ends-mono (IsRefusal context) (IsRefusal context) (Received header.length rest)
                    (Parses context reader) _
                    (payload-Ends context header rest (λ push. other (
                      sym (fourth-take reader)
                      ∙ ap (λ l. get_elem? l 3) (sym took.0)
                      ∙ type
                      ∙ ap some push)))
                    (λ e refusal. refusal) (parsed header header_data rest took h fits)

  -- The same of every frame, a push promise included, but for undefined behaviour.
  pub parse_http2_frame-Ensures :
      Ensures (IsRefusal context) (Parses context reader) (parse_http2_frame context reader)
  unfolding parse_http2_frame
  parse_http2_frame-Ensures =
      Ensures-bind (IsRefusal context) (Took 9 reader) (Parses context reader) _ _
        (Ends-Ensures (IsRefusal context) (Took 9 reader) _
          (read_or-Ends context 9 "Failed to read enough data for the frame header" reader refl))
        λ (header_data, rest) took.
          Ensures-bind (IsRefusal context) (HasHeader header_data) (Parses context reader) _ _
            (Ends-Ensures (IsRefusal context) (HasHeader header_data) _
              (raw_header-Ends (IsRefusal context) header_data (nine header_data rest took)))
            λ header (h, type).
              Ensures-if (IsRefusal context) (Parses context reader)
                (ltb context.settings.max_frame_size header.length) _ _
                (λ _. Ends-Ensures (IsRefusal context) (Parses context reader) _ (
                  connection_error-Ends context (Parses context reader) _ "Header size too big"
                    refl))
                λ fits.
                  Ensures-mono (IsRefusal context) (IsRefusal context) (Received header.length rest)
                    (Parses context reader) _ (payload-Ensures context header rest)
                    (λ e refusal. refusal) (parsed header header_data rest took h fits)
