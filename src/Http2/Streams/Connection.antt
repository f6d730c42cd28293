-- ===== src/Http2/Streams/Connection.antt =====
-- process_http2_frame of src/http/v2.c, its frames for the connection, and the loop of
-- parse_http2_request up to the stream that a request is read from.
use my_simple_c_http_server.Prelude.{
  ℕ, zero, suc, true, false, not, List, [], ◌∷◌, ◌++◌, Option, none, some, ltb, ◌==◌, if◌then◌else◌,
  Bytes, length, String, Outcome, ok, error, fault, stuck, ◌>>=◌,
}
use my_simple_c_http_server.Hpack.TableState.{set_hpack_state_setting}
use my_simple_c_http_server.Http2.Types.{
  Http2Identifier, Http2SettingSingleValue, Http2Frame, data_frame, headers_frame, priority_frame,
  rst_stream_frame, settings_frame, push_promise_frame, ping_frame, goaway_frame,
  window_update_frame, continuation_frame, header_table_size_id, enable_push_id,
  max_concurrent_streams_id, initial_window_size_id, max_frame_size_id, max_header_list_size_id,
  internal_error,
}
use my_simple_c_http_server.Http2.Context.{
  state_closed, Http2Stream, Http2Context, get_http2_stream,
}
use my_simple_c_http_server.Http2.Send.{http2_send_settings_frame, http2_send_ping_frame}
use my_simple_c_http_server.Http2.Parse.{FrameError, parse_http2_frame, connection_error}
use my_simple_c_http_server.Http2.Streams.{
  Http2ProcessFrameResult, result_ok, new_finished_request, result_error, close_connection, Handled,
  ignore_error, done, process_data, process_headers, process_priority, process_rst_stream,
  process_push_promise, process_continuation,
}

unfoldable pub apply_setting : Http2Context → Http2SettingSingleValue → Option Http2Context
apply_setting context entry =
    let settings = context.settings in
    if entry.identifier == header_table_size_id
    then elim (set_hpack_state_setting context.decompress_state entry.value) [
      | none ↦ none
      | some state ↦ some (record context {
        settings = record settings { header_table_size = entry.value };
        decompress_state = state;
      })
    ]
    else if entry.identifier == enable_push_id
    then some
        (record context { settings = record settings { enable_push = not (entry.value == 0) } })
    else if entry.identifier == max_concurrent_streams_id
    then some
        (record context { settings = record settings { max_concurrent_streams = entry.value } })
    else if entry.identifier == initial_window_size_id
    then some (record context { settings = record settings { initial_window_size = entry.value } })
    else if entry.identifier == max_frame_size_id
    then some (record context { settings = record settings { max_frame_size = entry.value } })
    else if entry.identifier == max_header_list_size_id
    then some (record context { settings = record settings { max_header_list_size = entry.value } })
    else some context

-- `none` is that of the eviction of `set_hpack_state_setting`.
unfoldable pub http2_apply_settings_frame :
    Http2Context → List Http2SettingSingleValue → Option Http2Context
http2_apply_settings_frame context [] = some context
http2_apply_settings_frame context (entry ∷ entries) = elim (apply_setting context entry) [
  | none ↦ none
  | some context' ↦ http2_apply_settings_frame context' entries
]

unfoldable pub process_http2_frame_for_connection : Http2Context → Http2Frame → Handled
unfolding http2_apply_settings_frame
process_http2_frame_for_connection context (settings_frame frame) =
    if frame.ack
    then done context [] result_ok
    else elim (http2_apply_settings_frame context frame.entries) [
      | none ↦ stuck
      | some context' ↦
          ignore_error (http2_send_settings_frame (record { ack = true; entries = [] })) >>= λ sent.
          done context' sent result_ok
    ]
process_http2_frame_for_connection context (ping_frame frame) =
    if frame.ack
    then done context [] result_ok
    else (ignore_error (http2_send_ping_frame (record frame { ack = true })) >>= λ sent.
        done context sent result_ok)
process_http2_frame_for_connection context (goaway_frame frame) =
    done (record context { state = state_closed frame.error_code }) [] close_connection
process_http2_frame_for_connection context (window_update_frame frame) = done context [] result_ok
process_http2_frame_for_connection context _ =
    done context [] (result_error true "invalid frame type to process for a connection")

-- The calls of `process_http2_frame_for_stream`, one for each type.
unfoldable pub process_http2_frame_for_stream :
    Http2Identifier → Http2Context → Http2Frame → Handled
process_http2_frame_for_stream identifier context (data_frame frame) =
    process_data context identifier frame
process_http2_frame_for_stream identifier context (headers_frame frame) =
    process_headers context identifier frame
process_http2_frame_for_stream identifier context (priority_frame frame) =
    process_priority context identifier frame
process_http2_frame_for_stream identifier context (rst_stream_frame frame) =
    process_rst_stream context identifier
process_http2_frame_for_stream identifier context (push_promise_frame frame) =
    process_push_promise context identifier frame
process_http2_frame_for_stream identifier context (window_update_frame frame) =
    done context [] result_ok
process_http2_frame_for_stream identifier context (continuation_frame frame) =
    process_continuation context identifier frame
process_http2_frame_for_stream identifier context _ =
    done context [] (result_error true "invalid frame type to process for a stream")

-- `Http2FrameCategory`: the stream that a frame is associated with.
unfoldable pub get_http2_frame_category : Http2Frame → Option Http2Identifier
get_http2_frame_category (data_frame frame) = some frame.identifier
get_http2_frame_category (headers_frame frame) = some frame.identifier
get_http2_frame_category (priority_frame frame) = some frame.identifier
get_http2_frame_category (rst_stream_frame frame) = some frame.identifier
get_http2_frame_category (push_promise_frame frame) = some frame.identifier
get_http2_frame_category (window_update_frame frame) =
    if frame.identifier == 0 then none else some frame.identifier
get_http2_frame_category (continuation_frame frame) = some frame.identifier
get_http2_frame_category _ = none

unfoldable pub update_last_stream_id : Http2Context → Http2Identifier → Http2Context
update_last_stream_id context identifier =
    if ltb context.last_stream_id identifier
    then record context { last_stream_id = identifier }
    else context

-- The identifier of a frame for the connection is that of a union set to 0.
unfoldable pub process_http2_frame : Http2Context → Http2Frame → Handled
unfolding get_http2_frame_category update_last_stream_id process_http2_frame_for_stream
    process_http2_frame_for_connection
process_http2_frame context frame = elim (get_http2_frame_category frame) [
  | none ↦ process_http2_frame_for_connection (update_last_stream_id context 0) frame
  | some identifier ↦
      process_http2_frame_for_stream identifier (update_last_stream_id context identifier) frame
]

-- What the loop ends with: the finished stream, an error, or the end of the connection.
pub data RequestEnd : Type 0 where
  finished_stream : Http2Identifier → Http2Stream → RequestEnd
  request_error : String → RequestEnd
  connection_closed : RequestEnd

-- The end, the context, the bytes still to come, and what was sent. Where the reader stands after an
-- error is not kept.
pub record Request : Type 0 where
  pub end : RequestEnd
  pub context : Http2Context
  pub reader : Option Bytes
  pub sent : Bytes

-- The case of a finished request, and the other cases that leave the loop. `none`: the loop goes on.
unfoldable pub request_end :
    Http2Context → Http2ProcessFrameResult → Outcome FrameError (Option RequestEnd)
request_end context result_ok = ok none
request_end context (result_error false message) = ok none
request_end context (result_error true message) = ok (some (request_error message))
request_end context (new_finished_request identifier) =
    elim (get_http2_stream identifier context.streams) [
      | none ↦ connection_error context internal_error "Implementation error, stream not found"
      | some stream ↦ ok (some (finished_stream identifier stream))
    ]
request_end context close_connection = ok (some connection_closed)

abbrev failed : Http2Context → Bytes → FrameError → Outcome FrameError Request
failed context sent e = ok (record {
  end = request_error e.message;
  context = context;
  reader = none;
  sent = sent ++ e.sent;
})

-- A round parses a frame and processes it.
unfoldable pub request_loop : ℕ → Http2Context → Bytes → Bytes → Outcome FrameError Request
request_loop zero context reader sent = stuck
request_loop (suc fuel) context reader sent = elim (parse_http2_frame context reader) [
  | error e ↦ failed context sent e
  | fault ↦ fault
  | stuck ↦ stuck
  | ok (frame, rest) ↦ elim (process_http2_frame context frame) [
    | error _ ↦ fault
    | fault ↦ fault
    | stuck ↦ stuck
    | ok processed ↦ elim (request_end processed.context processed.result) [
      | error e ↦ failed processed.context (sent ++ processed.sent) e
      | fault ↦ fault
      | stuck ↦ stuck
      | ok (some end) ↦ ok (record {
        end = end;
        context = processed.context;
        reader = some rest;
        sent = sent ++ processed.sent;
      })
      | ok none ↦ request_loop fuel processed.context rest (sent ++ processed.sent)
    ]
  ]
]

-- Each round takes at least the nine bytes of a header.
unfoldable pub parse_http2_request : Http2Context → Bytes → Outcome FrameError Request
unfolding request_loop
parse_http2_request context reader = request_loop (suc (length reader)) context reader []
