-- ===== src/Http2/Streams.antt =====
-- process_http2_frame of src/http/v2.c: what a frame does to the streams of a connection.
pub mod Connection
pub mod Steps
pub mod Edits
pub mod Handlers
pub mod Invariants
pub mod Settings
pub mod Process
pub mod Requests
pub mod Start
pub mod States
use my_simple_c_http_server.Prelude.{
  ℕ, Bool, true, false, not, ◌&&◌, ◌||◌, List, [], ◌∷◌, ◌++◌, Option, none, some, length, ◌==◌,
  if◌then◌else◌, Bytes, String, Outcome, ok, error, fault, stuck, ◌>>=◌, map_ok,
}
use my_simple_c_http_server.Http2.Types.{
  Http2Identifier, Http2FramePriority, Http2FramePriorityOptional, Http2DataFrame,
  Http2HeadersFrame, Http2PriorityFrame, Http2PushPromiseFrame, Http2ContinuationFrame,
  protocol_error, internal_error, stream_closed, default_stream_priority_ext,
}
use my_simple_c_http_server.Http2.Context.{
  Http2StreamState, idle, reserved, open_state, half_closed, closed, Http2Stream, Http2Context,
  get_http2_stream, get_http2_stream_state, set_stream, add_new_http2_stream,
}
use my_simple_c_http_server.Http2.Send.{
  SendError, Sent, http2_send_connection_error, http2_send_stream_error,
}

pub data Http2ProcessFrameResult : Type 0 where
  result_ok : Http2ProcessFrameResult
  new_finished_request : Http2Identifier → Http2ProcessFrameResult
  result_error : (is_connection_error : Bool) → (message : String) → Http2ProcessFrameResult
  close_connection : Http2ProcessFrameResult

-- The context after a frame, what was sent, and the result. That a frame could not be sent is
-- ignored.
pub record Processed : Type 0 where
  pub context : Http2Context
  pub sent : Bytes
  pub result : Http2ProcessFrameResult

abbrev pub Handled : Type 0
Handled = Outcome SendError Processed

unfoldable pub ignore_error : Sent → Sent
ignore_error (ok sent) = ok sent
ignore_error (error _) = ok []
ignore_error fault = fault
ignore_error stuck = stuck

abbrev pub done : Http2Context → Bytes → Http2ProcessFrameResult → Handled
done context sent result = ok (record { context = context; sent = sent; result = result })

-- Freeing the blocks leaves none.
abbrev pub http2_close_stream : Http2Stream → Http2Stream
http2_close_stream stream = record stream {
  state = closed;
  headers = record stream.headers { header_blocks = [] };
  data_blocks = [];
}

abbrev pub update_stream : Http2Context → Http2Identifier → Http2Stream → Http2Context
update_stream context identifier stream = record context {
  streams = set_stream identifier stream context.streams;
}

unfoldable pub http2_close_stream_by_identifier : Http2Context → Http2Identifier → Http2Context
http2_close_stream_by_identifier context identifier =
    elim (get_http2_stream identifier context.streams) [
      | none ↦ context
      | some stream ↦ update_stream context identifier (http2_close_stream stream)
    ]

unfoldable pub http2_stream_add_header_block : Http2Stream → Bytes → Bool → Option Http2Stream
http2_stream_add_header_block stream header_block finished =
    if stream.headers.finished
    then none
    else some (record stream {
      headers = record {
        finished = finished;
        header_blocks = stream.headers.header_blocks ++ header_block ∷ [];
      };
    })

unfoldable pub http2_stream_add_content_block : Http2Stream → Bytes → Bool → Option Http2Stream
http2_stream_add_content_block stream content_block end_stream =
    if stream.end_stream
    then none
    else some (record stream {
      data_blocks = stream.data_blocks ++ content_block ∷ [];
      end_stream = end_stream;
    })

abbrev pub is_open : Http2StreamState → Bool
is_open open_state = true
is_open _ = false

abbrev pub is_half_closed : Http2StreamState → Bool
is_half_closed half_closed = true
is_half_closed _ = false

abbrev pub is_idle : Http2StreamState → Bool
is_idle idle = true
is_idle _ = false

abbrev pub is_reserved : Http2StreamState → Bool
is_reserved reserved = true
is_reserved _ = false

abbrev pub is_closed : Http2StreamState → Bool
is_closed closed = true
is_closed _ = false

-- A new stream, with `EMPTY_STREAM_HEADERS` and `EMPTY_STREAM_CONTENT`.
abbrev pub new_stream : Http2StreamState → Bool → Http2FramePriority → Http2Stream
new_stream state end_stream priority = record {
  state = state;
  headers = record { finished = false; header_blocks = [] };
  data_blocks = [];
  end_stream = end_stream;
  priority = priority;
}

module _ (context : Http2Context) (identifier : Http2Identifier) where
  open context use {streams}

  -- A stream error: RST_STREAM is sent, and the stream is closed.
  unfoldable pub stream_error : ℕ → String → Handled
  unfolding ignore_error http2_close_stream_by_identifier
  stream_error error_code message =
      ignore_error (http2_send_stream_error error_code identifier) >>= λ sent.
      done (http2_close_stream_by_identifier context identifier) sent (result_error false message)

  unfoldable pub stream_not_found : String → Handled
  unfolding ignore_error
  stream_not_found message =
      ignore_error (http2_send_connection_error context.last_stream_id internal_error message)
      >>= λ sent. done context sent (result_error true message)

  -- A frame with the end of the headers or of the data, on a stream that is complete with it, gives a
  -- request.
  unfoldable pub finish_headers : Http2Stream → Handled
  finish_headers stream =
      if stream.end_stream && stream.headers.finished
      then done (update_stream context identifier (record stream { state = half_closed })) []
          (new_finished_request identifier)
      else done (update_stream context identifier stream) [] result_ok

  unfoldable pub process_data : Http2DataFrame → Handled
  unfolding http2_stream_add_content_block
  process_data frame =
      let state = get_http2_stream_state identifier streams in
      if not (is_open state) && not (is_half_closed state)
      then stream_error stream_closed "Data frame send on a stream in an invalid state"
      else elim (get_http2_stream identifier streams) [
        | none ↦ stream_not_found "Implementation error, stream not found"
        | some stream ↦
            if stream.end_stream
            then stream_error protocol_error
                "Stream already finished but still received a data frame"
            else if not stream.headers.finished
            then stream_error protocol_error
                "Stream headers not finished, but already received a data frame"
            else elim (http2_stream_add_content_block stream frame.content frame.is_end) [
              | none ↦ done context [] (result_error true "stream content block add error")
              | some stream' ↦
                  if stream'.end_stream
                  then done
                      (update_stream context identifier (record stream' { state = half_closed })) []
                      (new_finished_request identifier)
                  else done (update_stream context identifier stream') [] result_ok
            ]
      ]

  -- The end of the case of HEADERS.
  unfoldable pub add_headers : Http2HeadersFrame → Http2Stream → Handled
  unfolding http2_stream_add_header_block finish_headers
  add_headers frame stream =
      elim (http2_stream_add_header_block stream frame.block_fragment frame.end_headers) [
        | none ↦ done context [] (result_error true "stream header block add error")
        | some stream' ↦ finish_headers stream'
      ]

-- The block of a push promise with an empty fragment is not added.
unfoldable pub promised_stream : Http2Identifier → Http2PushPromiseFrame → Option Http2Stream
promised_stream identifier frame =
    let stream = new_stream reserved false (default_stream_priority_ext identifier) in
    if length frame.block_fragment == 0
    then some stream
    else http2_stream_add_header_block stream frame.block_fragment frame.end_headers

abbrev pub priority_or : Http2FramePriorityOptional → Http2FramePriority → Http2FramePriority
priority_or priority_opt old = if priority_opt.has_priority then priority_opt.priority else old

module _ (context : Http2Context) (identifier : Http2Identifier) where
  open context use {streams}

  -- An idle stream that the map has keeps its state.
  unfoldable pub process_headers : Http2HeadersFrame → Handled
  process_headers frame =
      let state = get_http2_stream_state identifier streams in
      if is_closed state
      then stream_error context identifier protocol_error
          "Headers frame send on a stream in an invalid state"
      else if not (is_idle state)
      then stream_error context identifier protocol_error
          "Headers frame send on a stream in an invalid state (trailers not supported yet)"
      else elim (get_http2_stream identifier streams) [
        | none ↦
            let stream =
              new_stream open_state frame.end_stream
                (priority_or frame.priority_opt (default_stream_priority_ext 0)) in
            elim (add_new_http2_stream identifier stream streams) [
              | none ↦ done context [] (result_error true "stream insert error")
              | some streams' ↦
                  let context' = record context { streams = streams' } in
                  elim (get_http2_stream identifier streams') [
                    | none ↦
                        stream_not_found context' identifier
                          "Implementation error, stream not found (after insert)"
                    | some stream' ↦ add_headers context' identifier frame stream'
                  ]
            ]
        | some stream ↦
            let stream' = record stream {
              end_stream = stream.end_stream || frame.end_stream;
              priority = priority_or frame.priority_opt stream.priority;
            } in
            let context' = update_stream context identifier stream' in
            if stream'.headers.finished
            then stream_error context' identifier protocol_error
                "Headers already finished but still received a headers frame"
            else add_headers context' identifier frame stream'
      ]

  unfoldable pub process_priority : Http2PriorityFrame → Handled
  process_priority frame = elim (get_http2_stream identifier streams) [
    | none ↦ elim (add_new_http2_stream identifier (new_stream idle false frame.priority) streams) [
      | none ↦ done context [] (result_error true "stream insert error")
      | some streams' ↦ done (record context { streams = streams' }) [] result_ok
    ]
    | some stream ↦
        done (update_stream context identifier (record stream { priority = frame.priority })) []
          result_ok
  ]

  unfoldable pub process_rst_stream : Handled
  process_rst_stream =
      if is_idle (get_http2_stream_state identifier streams)
      then stream_error context identifier protocol_error
          "Rst Stream frame send on a stream in an invalid state"
      else elim (get_http2_stream identifier streams) [
        | none ↦ stream_not_found context identifier "Implementation error, stream not found"
        | some stream ↦
            if is_half_closed stream.state
            then done (update_stream context identifier (http2_close_stream stream)) [] result_ok
            else done (update_stream context identifier (record stream { state = half_closed })) []
                result_ok
      ]

  unfoldable pub process_push_promise : Http2PushPromiseFrame → Handled
  unfolding promised_stream
  process_push_promise frame =
      let state = get_http2_stream_state identifier streams in
      if not (is_open state) && not (is_half_closed state)
      then stream_error context identifier protocol_error
          "Push promise frame send on a stream in an invalid state"
      else elim (promised_stream identifier frame) [
        | none ↦ done context [] (result_error true "stream header block add error")
        | some stream ↦
            elim (add_new_http2_stream frame.promised_stream_identifier stream streams) [
              | none ↦ done context [] (result_error true "stream insert error")
              | some streams' ↦ done (record context { streams = streams' }) [] result_ok
            ]
      ]

  unfoldable pub process_continuation : Http2ContinuationFrame → Handled
  process_continuation frame =
      let state = get_http2_stream_state identifier streams in
      if not (is_open state) && not (is_reserved state)
      then stream_error context identifier protocol_error
          "Continuation frame send on a stream in an invalid state"
      else elim (get_http2_stream identifier streams) [
        | none ↦ stream_not_found context identifier "Implementation error, stream not found"
        | some stream ↦
            if stream.headers.finished
            then stream_error context identifier protocol_error
                "Headers already finished but still received a continuation frame"
            else if length frame.block_fragment == 0
            then stream_error context identifier protocol_error
                "Continuation frame with empty headers block"
            else elim (http2_stream_add_header_block stream frame.block_fragment
                frame.end_headers) [
                  | none ↦ done context [] (result_error true "stream header block add error")
                  | some stream' ↦ finish_headers context identifier stream'
                ]
      ]
