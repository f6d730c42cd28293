-- ===== src/Http2/Streams/Handlers.antt =====
-- The handlers of src/http/v2.c for the frames of a stream, as steps of the stream map.
use my_simple_c_http_server.Prelude.{
  ℕ, ◌≡◌, refl, ◌∙◌, ◌≢◌, inl, inr, Bool, true, false, not, ◌&&◌, ◌||◌, [], ◌∷◌, none, some, ◌==◌,
  Bytes, String, length, Option-cases, Ends, Ends-if, Ends-mono,
}
use mathlib.Core.Path.{subst}
use my_simple_c_http_server.Http2.Types.{
  Http2Identifier, Http2RstStreamFrame, Http2DataFrame, Http2HeadersFrame, Http2PriorityFrame,
  Http2PushPromiseFrame, Http2ContinuationFrame, default_stream_priority_ext,
}
use my_simple_c_http_server.Http2.Context.{
  idle, open_state, half_closed, closed, Http2Stream, Http2Context, get_http2_stream,
  get_http2_stream_state, set_stream, add_new_http2_stream,
}
use my_simple_c_http_server.Http2.Context.Lookup.{
  state_of, state_none, get-set_self, set-set, get-cons_self, add_new, add_new_full,
}
use my_simple_c_http_server.Http2.Streams.{
  Handled, result_ok, new_finished_request, result_error, done, new_stream, is_open, is_half_closed,
  is_idle, is_closed, is_reserved, update_stream, http2_close_stream,
  http2_close_stream_by_identifier, stream_error, finish_headers, process_data,
  http2_stream_add_header_block, add_headers, process_headers, process_priority, process_rst_stream,
  promised_stream, process_push_promise, process_continuation, priority_or,
}
use my_simple_c_http_server.Http2.Streams.Steps.{
  ◌⟿◌, set_priority, start_headers, add_header, add_content, complete, close, by_steps, by_reset,
  edit, open_new, idle_new, promise, ◌↪*◌, start, next,
}
use my_simple_c_http_server.Http2.Streams.Edits.{
  IsPromised, Keeps, Nothing, Stepped, after, and_left, and_right, block_added, growing, idle_state,
  live_not_closed, live_state, not_idle, not_half, of_not, Reset, promised, stream_error_sent,
}

module _ (context : Http2Context) (i : Http2Identifier) where
  open context use {streams}

  close-↪* : streams ↪* (http2_close_stream_by_identifier context i).streams
  unfolding http2_close_stream_by_identifier
  close-↪* = elim (Option-cases (get_http2_stream i streams)) [
    | inl e ↦ rw (e, http2_close_stream_by_identifier) start
    | inr (s, e) ↦ rw (e, http2_close_stream_by_identifier) (next start (edit i s _ e close))
  ]

  close-Keeps : Keeps context (http2_close_stream_by_identifier context i)
  unfolding http2_close_stream_by_identifier
  close-Keeps = elim (Option-cases (get_http2_stream i streams)) [
    | inl e ↦
        rw (e, http2_close_stream_by_identifier)
          (record { settings = refl; decompress_state = refl })
    | inr (s, e) ↦
        rw (e, http2_close_stream_by_identifier)
          (record { settings = refl; decompress_state = refl })
  ]

  pub stream_error-Ends :
      (code : ℕ) (message : String)
      → Ends Nothing (Stepped context) (stream_error context i code message)
  unfolding stream_error
  stream_error-Ends code message =
      let (sent, e) = stream_error_sent code i in rw e (close-↪*, close-Keeps, tt)

  module _ (s : Http2Stream) (found : get_http2_stream i streams ≡ some s) where
    -- An edit of the stream, with a result that announces nothing.
    edit-Ends :
        (t : Http2Stream)
        → s ⟿ t
        → Ends Nothing (Stepped context) (done (update_stream context i t) [] result_ok)
    edit-Ends t e =
        (next start (edit i s t found e), record { settings = refl; decompress_state = refl }, tt)

    -- Two edits, the second of which completes the stream.
    complete-Ends :
        (t : Http2Stream)
        → s ⟿ t
        → t.state ≢ closed
        → t.end_stream ≡ true
        → t.headers.finished ≡ true
        → Ends Nothing (Stepped context) (
            done
              (update_stream context i (record t { state = half_closed }))
              []
              (new_finished_request i))
    complete-Ends t e alive ended finished =
        let t' : Http2Stream = record t { state = half_closed } in
        let after : set_stream i t' (set_stream i t streams) ≡ set_stream i t' streams =
          set-set i t t' streams in
        let steps : streams ↪* set_stream i t' (set_stream i t streams) =
          next (next start (edit i s t found e))
            (edit i t t' (get-set_self i s t streams found) (complete alive ended finished)) in
        (
          subst (λ m. streams ↪* m) after steps,
          record { settings = refl; decompress_state = refl },
          (
            t',
            get-set_self i s t' streams found,
            record { half = refl; ended = ended; headers_finished = finished },
          ),
        )

  pub process_data-Ends :
      (frame : Http2DataFrame) → Ends Nothing (Stepped context) (process_data context i frame)
  unfolding process_data
  process_data-Ends frame = elim (Option-cases (get_http2_stream i streams)) [
    | inl e ↦ rw (state_none i streams e) (stream_error-Ends _ _)
    | inr (s, e) ↦
        rw (state_of i s streams e, e)
          (Ends-if _ _ (not (is_open s.state) && not (is_half_closed s.state)) _ _
            (λ _. stream_error-Ends _ _)
            λ alive.
              Ends-if _ _ s.end_stream _ _ (λ _. stream_error-Ends _ _)
                λ going.
                  Ends-if _ _ (not s.headers.finished) _ _ (λ _. stream_error-Ends _ _)
                    λ ready.
                      let edited =
                        add_content frame.content frame.is_end (live_state s.state alive)
                          (of_not s.headers.finished ready) going in
                      rw going (
                        Ends-if _ _ frame.is_end _ _
                          (λ ended.
                            complete-Ends s e _ edited (live_not_closed s.state alive) ended
                              (of_not s.headers.finished ready))
                          (λ _. edit-Ends s e _ edited)))
  ]

  module _ (s : Http2Stream) (found : get_http2_stream i streams ≡ some s) where
    finish_headers-Ends :
        (t : Http2Stream)
        → s ⟿ t
        → t.state ≢ closed
        → Ends Nothing (Stepped context) (finish_headers context i t)
    unfolding finish_headers
    finish_headers-Ends t e alive =
        Ends-if _ _ (t.end_stream && t.headers.finished) _ _
          (λ h.
            complete-Ends s found t e alive (and_left t.end_stream t.headers.finished h)
              (and_right t.end_stream t.headers.finished h))
          λ _. edit-Ends s found t e

    -- A block for a stream that can still have one.
    add_block-Ends :
        (block : Bytes) (finished : Bool) (unfinished : s.headers.finished ≡ false)
        → s.state ≢ closed
        → s.state ≢ half_closed
        → Ends Nothing (Stepped context) (elim (http2_stream_add_header_block s block finished) [
          | none ↦ done context [] (result_error true "stream header block add error")
          | some t ↦ finish_headers context i t
        ])
    add_block-Ends block finished unfinished alive whole =
        rw (block_added s block finished unfinished)
          (finish_headers-Ends _ (add_header block finished alive whole unfinished) alive)

  add_headers-Ends :
      (frame : Http2HeadersFrame) (s : Http2Stream)
      → get_http2_stream i streams ≡ some s
      → s.headers.finished ≡ false
      → s.state ≢ closed
      → s.state ≢ half_closed
      → Ends Nothing (Stepped context) (add_headers context i frame s)
  unfolding add_headers
  add_headers-Ends frame s found unfinished alive whole =
      add_block-Ends s found frame.block_fragment frame.end_headers unfinished alive whole

module _ (context : Http2Context) (i : Http2Identifier) where
  open context use {streams}

  Ends-after :
      (context' : Http2Context) (m : Handled)
      → Keeps context context'
      → streams ↪* context'.streams
      → Ends Nothing (Stepped context') m
      → Ends Nothing (Stepped context) m
  Ends-after context' m keeps r h =
      Ends-mono Nothing Nothing _ _ m h (λ e n. n)
        λ p (q, k, a). (
          after r q,
          record {
            settings = k.settings ∙ keeps.settings;
            decompress_state = k.decompress_state ∙ keeps.decompress_state;
          },
          a,
        )

  pub process_headers-Ends :
      (frame : Http2HeadersFrame) → Ends Nothing (Stepped context) (process_headers context i frame)
  unfolding process_headers
  process_headers-Ends frame = elim (Option-cases (get_http2_stream i streams)) [
    | inl e ↦
        let opened =
          new_stream open_state frame.end_stream
            (priority_or frame.priority_opt (default_stream_priority_ext 0)) in
        rw (state_none i streams e, e, add_new i opened streams e, get-cons_self i opened streams)
          (Ends-after (record context { streams = (i, opened) ∷ streams }) _
            (record { settings = refl; decompress_state = refl }) (next start (open_new i _ _ e))
            (add_headers-Ends _ i frame opened (get-cons_self i opened streams) refl (λ h. cc)
              (λ h. cc)))
    | inr (s, e) ↦
        let started : Http2Stream = record s {
          end_stream = s.end_stream || frame.end_stream;
          priority = priority_or frame.priority_opt s.priority;
        } in
        rw (state_of i s streams e, e)
          (Ends-if _ _ (is_closed s.state) _ _ (λ _. stream_error-Ends _ _ _ _)
            λ _.
              Ends-if _ _ (not (is_idle s.state)) _ _ (λ _. stream_error-Ends _ _ _ _)
                λ still.
                  let is : s.state ≡ idle = idle_state s.state still in
                  Ends-after (update_stream context i started) _
                    (record { settings = refl; decompress_state = refl })
                    (next start (edit i s started e (start_headers _ _ is)))
                    (Ends-if _ _ s.headers.finished _ _ (λ _. stream_error-Ends _ _ _ _)
                      λ unfinished.
                        add_headers-Ends _ i frame started (get-set_self i s started streams e)
                          unfinished (λ h. cc) (λ h. cc)))
  ]

  pub process_priority-Ends :
      (frame : Http2PriorityFrame)
      → Ends Nothing (Stepped context) (process_priority context i frame)
  unfolding process_priority
  process_priority-Ends frame = elim (Option-cases (get_http2_stream i streams)) [
    | inl e ↦
        rw (process_priority, e, add_new i (new_stream idle false frame.priority) streams e)
          (
            next start (idle_new i frame.priority e),
            record { settings = refl; decompress_state = refl },
            tt,
          )
    | inr (s, e) ↦
        rw (process_priority, e) (edit-Ends context i s e _ (set_priority frame.priority))
  ]

  pub process_rst_stream-Ends :
      (frame : Http2RstStreamFrame)
      → frame.identifier ≡ i
      → Ends Nothing (Reset context frame) (process_rst_stream context i)
  unfolding process_rst_stream
  process_rst_stream-Ends frame same = elim (Option-cases (get_http2_stream i streams)) [
    | inl e ↦ rw (state_none i streams e) (stepped-Reset _ (stream_error-Ends _ _ _ _))
    | inr (s, e) ↦
        rw (state_of i s streams e, e)
          (Ends-if _ _ (is_idle s.state) _ _ (λ _. stepped-Reset _ (stream_error-Ends _ _ _ _))
            λ busy.
              Ends-if _ _ (is_half_closed s.state) _ _
                (λ _.
                  let (steps, keeps, announces) =
                    edit-Ends context i s e (http2_close_stream s) close in
                  (by_steps steps, keeps, announces))
                λ other. (
                  by_reset i s frame refl same e (not_idle s.state busy) (not_half s.state other),
                  record { settings = refl; decompress_state = refl },
                  tt,
                ))
  ]
    where
      stepped-Reset :
          (m : Handled) → Ends Nothing (Stepped context) m → Ends Nothing (Reset context frame) m
      stepped-Reset m h =
          Ends-mono Nothing Nothing (Stepped context) (Reset context frame) m h (λ e n. n)
            λ p (steps, keeps, announces). (by_steps steps, keeps, announces)

  pub process_push_promise-Ends :
      (frame : Http2PushPromiseFrame)
      → Ends Nothing (Stepped context) (process_push_promise context i frame)
  unfolding process_push_promise
  process_push_promise-Ends frame =
      Ends-if _ _
        (not (is_open (get_http2_stream_state i streams))
          && not (is_half_closed (get_http2_stream_state i streams)))
        _ _ (λ _. stream_error-Ends _ _ _ _)
        λ _. elim (Option-cases (promised_stream i frame)) [
          | inl e ↦
              rw (process_push_promise, e)
                (start, record { settings = refl; decompress_state = refl }, tt)
          | inr (t, e) ↦ rw (process_push_promise, e) (promise_Ends t (promised i frame t e))
        ]
    where
      promise_Ends :
          (t : Http2Stream)
          → IsPromised i t
          → Ends Nothing
              (Stepped context)
              (elim (add_new_http2_stream frame.promised_stream_identifier t streams) [
                | none ↦ done context [] (result_error true "stream insert error")
                | some streams' ↦ done (record context { streams = streams' }) [] result_ok
              ])
      promise_Ends t k =
          elim (Option-cases (get_http2_stream frame.promised_stream_identifier streams)) [
            | inl e ↦ rw (add_new frame.promised_stream_identifier t streams e) (
              next start (promise _ t _ e k),
              record { settings = refl; decompress_state = refl },
              tt,
            )
            | inr (old, e) ↦
                rw (add_new_full frame.promised_stream_identifier t old streams e)
                  (start, record { settings = refl; decompress_state = refl }, tt)
          ]

  pub process_continuation-Ends :
      (frame : Http2ContinuationFrame)
      → Ends Nothing (Stepped context) (process_continuation context i frame)
  unfolding process_continuation
  process_continuation-Ends frame = elim (Option-cases (get_http2_stream i streams)) [
    | inl e ↦ rw (state_none i streams e) (stream_error-Ends _ _ _ _)
    | inr (s, e) ↦
        rw (state_of i s streams e, e)
          (Ends-if _ _ (not (is_open s.state) && not (is_reserved s.state)) _ _
            (λ _. stream_error-Ends _ _ _ _)
            λ alive.
              Ends-if _ _ s.headers.finished _ _ (λ _. stream_error-Ends _ _ _ _)
                λ unfinished.
                  Ends-if _ _ (length frame.block_fragment == 0) _ _
                    (λ _. stream_error-Ends _ _ _ _)
                    λ _.
                      add_block-Ends context i s e _ _ unfinished (growing s.state alive).0
                        (growing s.state alive).1)
  ]
