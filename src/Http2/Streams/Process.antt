-- ===== src/Http2/Streams/Process.antt =====
-- process_http2_frame and parse_http2_request of src/http/v2.c: the invariant of the context.
use my_simple_c_http_server.Prelude.{
  ℕ, ◌≡◌, refl, inl, inr, true, List, [], Option, none, some, ltb, Bytes, Bool-cases, Option-cases,
  stuck, Ends, Ends-if, ◌>>=◌, Ends-mono,
}
use mathlib.Core.Option.{some-injective}
use my_simple_c_http_server.Http2.Types.{
  Http2Identifier, Http2SettingSingleValue, Http2Frame, data_frame, headers_frame, priority_frame,
  rst_stream_frame, settings_frame, push_promise_frame, ping_frame, goaway_frame,
  window_update_frame, continuation_frame,
}
use my_simple_c_http_server.Http2.Context.{state_closed, Http2Context}
use my_simple_c_http_server.Http2.Send.{http2_send_settings_frame}
use my_simple_c_http_server.Http2.Parse.Takes.{AreSettings, IsReceived}
use my_simple_c_http_server.Http2.Streams.{
  Http2ProcessFrameResult, result_ok, close_connection, Processed, Handled, ignore_error, done,
}
use my_simple_c_http_server.Http2.Streams.Steps.{start, Changes, by_steps}
use my_simple_c_http_server.Http2.Streams.Connection.{
  http2_apply_settings_frame, process_http2_frame_for_connection, process_http2_frame_for_stream,
  get_http2_frame_category, update_last_stream_id, process_http2_frame,
}
use my_simple_c_http_server.Http2.Streams.Handlers.{
  process_data-Ends, process_headers-Ends, process_priority-Ends, process_rst_stream-Ends,
  process_push_promise-Ends, process_continuation-Ends,
}
use my_simple_c_http_server.Http2.Streams.Edits.{Announces, Keeps, Nothing, Stepped, Reset}
use my_simple_c_http_server.Http2.Streams.Invariants.{Changes-AreStreams}
use my_simple_c_http_server.Http2.Streams.Settings.{
  Applied, IsContext, IsProcessed, IsSome, apply_settings-Applied, ping_answer, settings_ack,
}

module _ (context : Http2Context) (is : IsContext context) where
  -- A frame for the connection.
  same_streams :
      (frame : Http2Frame) (c : Http2Context)
      → IsContext c
      → c.streams ≡ context.streams
      → (sent : Bytes) (r : Http2ProcessFrameResult) → Announces c.streams r
      → IsProcessed context frame (record { context = c; sent = sent; result = r })
  same_streams frame c is' same sent r a = record {
    changes = by_steps (rw same start);
    announces = a;
    after = is';
  }

  closed_context : (code : ℕ) → IsContext (record context { state = state_closed code })
  closed_context code = record {
    frame_size_low = is.frame_size_low;
    frame_size_high = is.frame_size_high;
    window = is.window;
    table = is.table;
    streams = is.streams;
  }

  settings-Ends :
      (frame : Http2Frame) (entries : List Http2SettingSingleValue)
      → AreSettings entries
      → Ends Nothing
          (IsProcessed context frame)
          (elim (http2_apply_settings_frame context entries) [
            | none ↦ stuck
            | some context' ↦
                ignore_error (http2_send_settings_frame (record { ack = true; entries = [] }))
                >>= λ sent. done context' sent result_ok
          ])
  settings-Ends frame entries are =
      applied (http2_apply_settings_frame context entries)
        (apply_settings-Applied entries context is are)
    where
      applied :
          (o : Option Http2Context)
          → IsSome (Applied context) o
          → Ends Nothing (IsProcessed context frame) (elim o [
            | none ↦ stuck
            | some context' ↦
                ignore_error (http2_send_settings_frame (record { ack = true; entries = [] }))
                >>= λ sent. done context' sent result_ok
          ])
      applied none h = h
      applied (some c) (is', same) =
          let (sent, e) = settings_ack in rw e (same_streams frame c is' same sent result_ok tt)

  connection-Ends :
      (frame : Http2Frame)
      → IsReceived frame
      → Ends Nothing (IsProcessed context frame) (process_http2_frame_for_connection context frame)
  unfolding process_http2_frame_for_connection
  connection-Ends (settings_frame frame) are =
      Ends-if Nothing (IsProcessed context (settings_frame frame)) frame.ack _ _
        (λ _. same_streams _ context is refl _ _ tt)
        λ _. settings-Ends (settings_frame frame) frame.entries are
  connection-Ends (ping_frame frame) r =
      Ends-if Nothing (IsProcessed context (ping_frame frame)) frame.ack _ _
        (λ _. same_streams _ context is refl _ _ tt)
        λ _.
          let (sent, e) = ping_answer (record frame { ack = true }) in
          rw e (same_streams (ping_frame frame) context is refl sent result_ok tt)
  connection-Ends (goaway_frame frame) r =
      same_streams _ _ (closed_context frame.error_code) refl _ close_connection tt
  connection-Ends (window_update_frame frame) r = same_streams _ context is refl _ _ tt
  connection-Ends (data_frame frame) r = same_streams _ context is refl _ _ tt
  connection-Ends (headers_frame frame) r = same_streams _ context is refl _ _ tt
  connection-Ends (priority_frame frame) r = same_streams _ context is refl _ _ tt
  connection-Ends (rst_stream_frame frame) r = same_streams _ context is refl _ _ tt
  connection-Ends (push_promise_frame frame) r = same_streams _ context is refl _ _ tt
  connection-Ends (continuation_frame frame) r = same_streams _ context is refl _ _ tt

  -- A frame for a stream.
  changed :
      (frame : Http2Frame) (p : Processed)
      → Changes frame context.streams p.context.streams
      → Keeps context p.context
      → Announces p.context.streams p.result
      → IsProcessed context frame p
  changed frame p changes keeps announces = record {
    changes = changes;
    announces = announces;
    after = record {
      frame_size_low = rw keeps.settings is.frame_size_low;
      frame_size_high = rw keeps.settings is.frame_size_high;
      window = rw keeps.settings is.window;
      table = rw keeps.decompress_state is.table;
      streams = Changes-AreStreams changes is.streams;
    };
  }

  handled :
      (frame : Http2Frame) (m : Handled)
      → Ends Nothing (Stepped context) m
      → Ends Nothing (IsProcessed context frame) m
  handled frame m h =
      Ends-mono Nothing Nothing (Stepped context) (IsProcessed context frame) m h (λ e n. n)
        λ p (steps, keeps, announces). changed frame p (by_steps steps) keeps announces

  stream-Ends :
      (i : Http2Identifier) (frame : Http2Frame)
      → get_http2_frame_category frame ≡ some i
      → Ends Nothing (IsProcessed context frame) (process_http2_frame_for_stream i context frame)
  unfolding process_http2_frame_for_stream get_http2_frame_category
  stream-Ends i (data_frame frame) e = handled _ _ (process_data-Ends context i frame)
  stream-Ends i (headers_frame frame) e = handled _ _ (process_headers-Ends context i frame)
  stream-Ends i (priority_frame frame) e = handled _ _ (process_priority-Ends context i frame)
  stream-Ends i (rst_stream_frame frame) e =
      Ends-mono Nothing Nothing (Reset context frame) (IsProcessed context (rst_stream_frame frame))
        _ (process_rst_stream-Ends context i frame (some-injective frame.identifier i e)) (λ e n. n)
        λ p (changes, keeps, announces). changed _ p changes keeps announces
  stream-Ends i (push_promise_frame frame) e =
      handled _ _ (process_push_promise-Ends context i frame)
  stream-Ends i (continuation_frame frame) e =
      handled _ _ (process_continuation-Ends context i frame)
  stream-Ends i (window_update_frame frame) e = same_streams _ context is refl _ _ tt
  stream-Ends i (settings_frame frame) e = same_streams _ context is refl _ _ tt
  stream-Ends i (ping_frame frame) e = same_streams _ context is refl _ _ tt
  stream-Ends i (goaway_frame frame) e = same_streams _ context is refl _ _ tt

update_last_stream_id-IsContext :
    (context : Http2Context) (i : Http2Identifier)
    → IsContext context
    → IsContext (update_last_stream_id context i)
      × ((update_last_stream_id context i).streams ≡ context.streams)
unfolding update_last_stream_id
update_last_stream_id-IsContext context i is = elim (Bool-cases (ltb context.last_stream_id i)) [
  | inl e ↦
      rw (update_last_stream_id, e)
        (
          record {
            frame_size_low = is.frame_size_low;
            frame_size_high = is.frame_size_high;
            window = is.window;
            table = is.table;
            streams = is.streams;
          },
          refl,
        )
  | inr e ↦ rw (update_last_stream_id, e) (is, refl)
]

-- Processing a received frame, in a context that is in range, ends without an error or undefined
-- behaviour. The streams change by the steps that the code allows, with a reset only by RST_STREAM on
-- a stream that is reserved, open or closed; a request is announced only for a
-- stream that is half closed with its headers and its content complete, and the context is in range
-- again: the settings, the table of the HPACK decoder, and every stream.
pub process_http2_frame-IsProcessed :
    (context : Http2Context) (frame : Http2Frame)
    → IsContext context
    → IsReceived frame
    → Ends Nothing (IsProcessed context frame) (process_http2_frame context frame)
unfolding process_http2_frame
process_http2_frame-IsProcessed context frame is received =
    elim (Option-cases (get_http2_frame_category frame)) [
      | inl e ↦ rw (process_http2_frame, e) (behind 0 _ λ is'. connection-Ends _ is' frame received)
      | inr (i, e) ↦ rw (process_http2_frame, e) (behind i _ λ is'. stream-Ends _ is' i frame e)
    ]
  where
    behind :
        (i : Http2Identifier) (m : Handled)
        → (IsContext (update_last_stream_id context i)
            → Ends Nothing (IsProcessed (update_last_stream_id context i) frame) m)
        → Ends Nothing (IsProcessed context frame) m
    behind i m k =
        let (is', same) = update_last_stream_id-IsContext context i is in
        Ends-mono Nothing Nothing (IsProcessed (update_last_stream_id context i) frame)
          (IsProcessed context frame) m (k is') (λ e n. n)
          λ p h. record { changes = rw same at h.changes; announces = h.announces; after = h.after }
