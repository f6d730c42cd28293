-- ===== src/Http2/Streams/States.antt =====
-- What process_http2_frame of src/http/v2.c does to the state of a stream.
use my_simple_c_http_server.Prelude.{
  ℕ, String, ◌∙◌, ◌≡◌, refl, sym, false, [], ◌∷◌, ◌++◌, none, some, arith, Ends, Ends-mono,
}
use my_simple_c_http_server.Http2.Types.{
  Http2Identifier, Http2Frame, Http2HeadersFrame, Http2DataFrame, stream_closed,
}
use my_simple_c_http_server.Http2.Context.{
  idle, closed, Http2Stream, Http2Context, get_http2_stream, get_http2_stream_state, set_stream,
  http2_default_context,
}
use my_simple_c_http_server.Http2.Context.Lookup.{get-nil, state_of, get-set_self}
use my_simple_c_http_server.Http2.Parse.Takes.{IsReceived}
use my_simple_c_http_server.Http2.Streams.{
  result_ok, result_error, process_headers, process_data, update_stream, http2_close_stream,
  http2_close_stream_by_identifier, stream_error, add_headers, finish_headers,
  http2_stream_add_header_block, priority_or,
}
use my_simple_c_http_server.Http2.Streams.Connection.{process_http2_frame}
use my_simple_c_http_server.Http2.Streams.Edits.{Nothing, stream_error_sent}
use my_simple_c_http_server.Http2.Streams.Invariants.{Moves, Changes-Moves}
use my_simple_c_http_server.Http2.Streams.Process.{process_http2_frame-IsProcessed}
use my_simple_c_http_server.Http2.Streams.Settings.{IsContext, IsProcessed}

-- Processing a received frame, in a context that is in range, moves the state of every stream, the
-- one that the frame names or another, along the diagram of the states: from idle to open or
-- reserved, from these two to half closed, and from any state to closed, which it does not leave. The
-- one exception is RST_STREAM for the stream itself where that is reserved, open or closed: the stream
-- comes to be half closed.
pub process_http2_frame_states :
    (context : Http2Context) (frame : Http2Frame) (i : Http2Identifier)
    → IsContext context
    → IsReceived frame
    → Ends Nothing
        (λ p.
          Moves frame i
            (get_http2_stream_state i context.streams)
            (get_http2_stream_state i p.context.streams))
        (process_http2_frame context frame)
process_http2_frame_states context frame i is received =
    Ends-mono Nothing Nothing (IsProcessed context frame) _ _
      (process_http2_frame-IsProcessed context frame is received) (λ e n. n)
      λ p h. Changes-Moves h.changes i

module _ (context : Http2Context) (i : Http2Identifier) (s : Http2Stream)
    (found : get_http2_stream i context.streams ≡ some s) where
  update_state :
      (t : Http2Stream) → get_http2_stream_state i (update_stream context i t).streams ≡ t.state
  update_state t = state_of i t _ (get-set_self i s t context.streams found)

  -- A stream error closes the stream.
  stream_error_closes :
      (code : ℕ) (message : String)
      → Ends Nothing
          (λ q.
            (q.result ≡ result_error false message)
            × (get_http2_stream_state i q.context.streams ≡ closed))
          (stream_error context i code message)
  unfolding stream_error http2_close_stream_by_identifier
  stream_error_closes code message =
      let (sent, e) = stream_error_sent code i in
      rw e
        (rw (http2_close_stream_by_identifier, found) (refl, update_state (http2_close_stream s)))

  data_refused :
      (content : Http2DataFrame)
      → s.state ≡ idle
      → Ends Nothing
          (λ q.
            (q.result ≡ result_error false "Data frame send on a stream in an invalid state")
            × (get_http2_stream_state i q.context.streams ≡ closed))
          (process_data context i content)
  unfolding process_data
  data_refused content e =
      rw (state_of i s context.streams found ∙ e)
        (stream_error_closes stream_closed "Data frame send on a stream in an invalid state")

-- HEADERS for a stream that a PRIORITY frame has made are accepted, but the stream stays idle, and the
-- DATA frame behind them is refused and closes the stream. That is so where the headers do not end
-- the stream and no headers have come before.
pub headers_on_idle :
    (context : Http2Context) (i : Http2Identifier) (s : Http2Stream) (headers : Http2HeadersFrame)
    (content : Http2DataFrame)
    → get_http2_stream i context.streams ≡ some s
    → s.state ≡ idle
    → s.end_stream ≡ false
    → s.headers.finished ≡ false
    → headers.end_stream ≡ false
    → Ends Nothing
        (λ p.
          (p.result ≡ result_ok)
          × (get_http2_stream_state i p.context.streams ≡ idle)
          × Ends Nothing
              (λ q.
                (q.result ≡ result_error false "Data frame send on a stream in an invalid state")
                × (get_http2_stream_state i q.context.streams ≡ closed))
              (process_data p.context i content))
        (process_headers context i headers)
unfolding process_headers add_headers finish_headers http2_stream_add_header_block
headers_on_idle context i s headers content found still going unfinished more =
    let s' : Http2Stream = record s {
      end_stream = false;
      priority = priority_or headers.priority_opt s.priority;
    } in
    let t : Http2Stream = record s' {
      headers = record {
        finished = headers.end_headers;
        header_blocks = s.headers.header_blocks ++ headers.block_fragment ∷ [];
      };
    } in
    let found' = get-set_self i s s' context.streams found in
    let found_t = get-set_self i s' t (set_stream i s' context.streams) found' in
    rw (state_of i s context.streams found ∙ still) (
      rw
        (
          process_headers, found, unfinished, going, more, add_headers, finish_headers,
          http2_stream_add_header_block,
        )
        (
          refl,
          state_of i t _ found_t ∙ still,
          data_refused (update_stream (update_stream context i s') i t) i t found_t content still,
        ))

-- A new connection is in range.
pub http2_default_context-IsContext : IsContext http2_default_context
http2_default_context-IsContext = record {
  frame_size_low = omega arith;
  frame_size_high = omega arith;
  window = omega arith;
  table = record {
    table = record { fits = omega arith; starts = omega arith; room = refl; bounded = omega arith };
    counted = refl;
    within = omega arith;
    bounded = omega arith;
  };
  streams = record { each = λ i s h. absurd (nothing s (sym (get-nil i) ∙ h)) };
}
  where
    nothing : (s : Http2Stream) → none ≡ some s → ⊥
    nothing s e = cc
