-- ===== src/Http2/Streams/Start.antt =====
-- http2_send_and_receive_preface of src/http/v2.c: the start of a connection.
use my_simple_c_http_server.Prelude.{
  ◌≡◌, refl, false, [], ◌∷◌, Option, none, some, Bytes, String, Outcome, ok, error, fault, stuck,
  arith,
}
use my_simple_c_http_server.Hpack.TableState.{IsSized, set_hpack_state_setting}
use my_simple_c_http_server.Hpack.TableState.Insert.{set_hpack_state_setting-Resized}
use my_simple_c_http_server.Http2.Types.{
  Http2SettingsFrame, Http2Frame, settings_frame, header_table_size_id, default_header_table_size,
}
use my_simple_c_http_server.Http2.Context.{Http2Context}
use my_simple_c_http_server.Http2.Send.{http2_send_settings_frame}
use my_simple_c_http_server.Http2.Send.Settings.{http2_send_settings_frame_faults}
use my_simple_c_http_server.Http2.Parse.{FrameError, parse_http2_frame}
use my_simple_c_http_server.Http2.Streams.{result_ok, result_error}
use my_simple_c_http_server.Http2.Streams.Connection.{process_http2_frame}

-- The settings that are sent first, and the table of the encoder.
unfoldable pub get_start_settings_frame : Http2Context → Option (Http2SettingsFrame × Http2Context)
get_start_settings_frame context =
    elim (set_hpack_state_setting context.compress_state default_header_table_size) [
      | none ↦ none
      | some state ↦ some (
        record {
          ack = false;
          entries =
              (record { identifier = header_table_size_id; value = default_header_table_size })
              ∷ [];
        },
        record context { compress_state = state },
      )
    ]

-- The message of an error, and the context with the bytes still to come.
pub data StartResult : Type 0 where
  start_error : String → StartResult
  start_ok : Http2Context → Bytes → StartResult

unfoldable pub process_first : Http2Context → Http2Frame × Bytes → Outcome FrameError StartResult
process_first context (settings_frame frame, rest) =
    elim (process_http2_frame context (settings_frame frame)) [
      | ok processed ↦ elim processed.result [
        | result_ok ↦ ok (start_ok processed.context rest)
        | result_error _ message ↦ ok (start_error message)
        | _ ↦
            ok
              (start_error "error: implementation error (settings frame can't result in a request)")
      ]
      | error _ ↦ fault
      | fault ↦ fault
      | stuck ↦ stuck
    ]
process_first context (_, rest) = ok (start_error "first frame has to be a settings frame")

unfoldable pub http2_send_and_receive_preface :
    Http2Context → Bytes → Outcome FrameError StartResult
unfolding get_start_settings_frame process_first
http2_send_and_receive_preface context reader = elim (get_start_settings_frame context) [
  | none ↦ stuck
  | some (frame, context') ↦ elim (http2_send_settings_frame frame) [
    | error _ ↦ ok (start_error "error in sending settings frame (server preface)")
    | fault ↦ fault
    | stuck ↦ stuck
    | ok _ ↦ elim (parse_http2_frame context' reader) [
      | error e ↦ ok (start_error e.message)
      | fault ↦ fault
      | stuck ↦ stuck
      | ok (parsed, rest) ↦ process_first context' (parsed, rest)
    ]
  ]
]

-- Every start of a connection, from a sized encoder table and whatever the peer sends, writes behind
-- the end of the buffer for its SETTINGS frame.
pub preface_faults :
    (context : Http2Context) (reader : Bytes)
    → IsSized context.compress_state
    → http2_send_and_receive_preface context reader ≡ fault
unfolding http2_send_and_receive_preface get_start_settings_frame
preface_faults context reader sized =
    let (state, runs, _) =
      set_hpack_state_setting-Resized context.compress_state sized default_header_table_size
        (omega arith) in
    rw
      (
        http2_send_and_receive_preface,
        get_start_settings_frame,
        runs,
        http2_send_settings_frame_faults
            (record { identifier = header_table_size_id; value = default_header_table_size }) []
            (omega arith),
      )
      refl
