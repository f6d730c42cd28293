-- ===== src/Http2/Parse/Common.antt =====
-- What the frame parsers of src/http/v2.c share.
use my_simple_c_http_server.Prelude.{
  ℕ, ◌-◌, ◌/◌, ◌%◌, ◌^◌, Bool, true, false, not, [], ◌∷◌, Option, none, some, bit_and, ltb, leb,
  ◌==◌, if◌then◌else◌, Bytes, length, get_or, get_elem?, take, drop, String, Outcome, ok, error,
  fault, stuck, ◌>>=◌,
}
use my_simple_c_http_server.Serialization.{deserialize_u32_be_to_host}
use my_simple_c_http_server.Http2.Types.{
  Http2Identifier, Http2FramePriority, protocol_error, internal_error, flag_padded,
}
use my_simple_c_http_server.Http2.Context.{Http2Context}
use my_simple_c_http_server.Http2.Send.{host, http2_send_connection_error}

-- The text of the error, and what was written to the connection before it was returned.
pub record FrameError : Type 0 where
  pub message : String
  pub sent : Bytes

abbrev pub Parsed : Type 0 → Type 0
Parsed A = Outcome FrameError (A × Bytes)

-- `buffered_reader_get_amount` on what is to come.
unfoldable pub read_amount : ℕ → Bytes → Option (Bytes × Bytes)
read_amount amount reader =
    if leb amount (length reader) then some (take amount reader, drop amount reader) else none

-- `(flags & allowed) != flags`
abbrev pub has_other_flags : ℕ → ℕ → Bool
has_other_flags flags allowed = not (bit_and flags allowed == flags)

abbrev pub has_flag : ℕ → ℕ → Bool
has_flag flags flag = not (bit_and flags flag == 0)

unfoldable pub all_zero : Bytes → Bool
all_zero [] = true
all_zero (byte ∷ bytes) = if byte == 0 then all_zero bytes else false

module _ (context : Http2Context) where
  -- The error that the connection is told of. That the frame could not be sent is ignored.
  unfoldable pub connection_error : {A : Type 0} → ℕ → String → Outcome FrameError A
  connection_error error_code message =
      elim (http2_send_connection_error context.last_stream_id error_code message) [
        | ok sent ↦ error (record { message = message; sent = sent })
        | error _ ↦ error (record { message = message; sent = [] })
        | fault ↦ fault
        | stuck ↦ stuck
      ]

  unfoldable pub read_or : ℕ → String → Bytes → Parsed Bytes
  unfolding connection_error read_amount
  read_or amount message reader = elim (read_amount amount reader) [
    | none ↦ connection_error internal_error message
    | some (bytes, rest) ↦ ok (bytes, rest)
  ]

  -- The padding length, and the payload length without it.
  unfoldable pub read_padding_length : ℕ → ℕ → Bytes → Parsed (ℕ × ℕ)
  unfolding connection_error read_or
  read_padding_length flags payload_length reader =
      if not (has_flag flags flag_padded)
      then ok ((0, payload_length), reader)
      else if ltb payload_length 1
      then connection_error protocol_error "not enough frame data for padding length field(1 byte)"
      else (read_or 1 "Failed to read enough data for the frame header" reader
          >>= λ (padding, rest).
              let padding_length = get_or padding 0 0 in
              if leb (payload_length - 1) padding_length
              then connection_error protocol_error
                  "padding length is greater than remaining length in frame"
              else ok ((padding_length, payload_length - 1 - padding_length), rest))

  unfoldable pub read_padding : ℕ → Bytes → Outcome FrameError Bytes
  unfolding connection_error read_or all_zero
  read_padding padding_length reader =
      if padding_length == 0
      then ok reader
      else (read_or padding_length "Failed to read enough data for the padding data" reader
          >>= λ (padding, rest).
              if all_zero padding
              then ok rest
              else connection_error protocol_error "padding bytes are not 0")

-- `& 0x7fffffff`
unfoldable pub deserialize_identifier : Bytes → Outcome FrameError Http2Identifier
deserialize_identifier bytes =
    deserialize_u32_be_to_host host bytes >>= λ value. ok (value % 2 ^ 31)

unfoldable pub get_http2_priority_info_from_raw_data : Bytes → Outcome FrameError Http2FramePriority
get_http2_priority_info_from_raw_data raw_data =
    deserialize_u32_be_to_host host raw_data >>= λ stream_dependency_identifier_raw.
    elim (get_elem? raw_data 4) [
      | none ↦ fault
      | some weight ↦ ok (record {
        exclusive = not (stream_dependency_identifier_raw / 2 ^ 31 == 0);
        dependency_identifier = stream_dependency_identifier_raw % 2 ^ 31;
        weight = weight;
      })
    ]
