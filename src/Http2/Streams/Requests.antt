-- ===== src/Http2/Streams/Requests.antt =====
-- The loop of parse_http2_request of src/http/v2.c.
use my_simple_c_http_server.Prelude.{
  ℕ, zero, suc, ◌+◌, ◌-◌, ◌<◌, ◌≡◌, refl, sym, ◌∙◌, ap, inl, inr, get_elem?, ◌==◌, ==_iff,
  Bool-cases, Option-cases, true, false, [], ◌++◌, Option, none, some, Bytes, length, length-drop,
  arith, ok, error, fault, stuck, Outcome, Ends, Ensures,
}
use mathlib.Core.Option.{some-injective}
use my_simple_c_http_server.Http2.Types.{Http2Frame, type_push_promise}
use my_simple_c_http_server.Http2.Context.{Http2StreamMap, Http2Context, get_http2_stream}
use my_simple_c_http_server.Http2.Send.{SendError}
use my_simple_c_http_server.Http2.Parse.{FrameError, parse_http2_frame}
use my_simple_c_http_server.Http2.Parse.Reads.{IsRefusal}
use my_simple_c_http_server.Http2.Parse.Bounds.{
  Parses, parse_http2_frame-Ends, parse_http2_frame-Ensures,
}
use my_simple_c_http_server.Http2.Streams.{
  Http2ProcessFrameResult, result_ok, new_finished_request, result_error, close_connection,
  Processed,
}
use my_simple_c_http_server.Http2.Streams.Steps.{ManyChanges, no_change, one_more}
use my_simple_c_http_server.Http2.Streams.Connection.{
  process_http2_frame, RequestEnd, finished_stream, request_error, Request, request_end,
  request_loop, parse_http2_request,
}
use my_simple_c_http_server.Http2.Streams.Edits.{IsComplete, Announces, Nothing}
use my_simple_c_http_server.Http2.Streams.Process.{process_http2_frame-IsProcessed}
use my_simple_c_http_server.Http2.Streams.Settings.{IsContext, IsProcessed}

-- A finished stream is complete, and it is the one of its identifier.
abbrev pub EndsWith : Http2StreamMap → RequestEnd → Type 0
EndsWith m (finished_stream i s) = (get_http2_stream i m ≡ some s) × IsComplete s
EndsWith m _ = Unit

-- What the loop comes to from a context.
pub record IsRequest (context : Http2Context) (r : Request) : Type 0 where
  pub changes : ManyChanges context.streams r.context.streams
  pub after : IsContext r.context
  pub ends : EndsWith r.context.streams r.end

joined : {m n k : Http2StreamMap} → ManyChanges m n → ManyChanges n k → ManyChanges m k
joined r no_change = r
joined r (one_more frame q e) = one_more frame (joined r q) e

-- The loop comes, in rounds that it goes on from, to the context `later` and the bytes `left`.
pub data Reaches (later : Http2Context) (left : Bytes) : Http2Context → Bytes → Type 0 where
  here : Reaches later left later left
  round :
      {context : Http2Context} {reader : Bytes} (frame : Http2Frame) (rest : Bytes) (p : Processed)
      → parse_http2_frame context reader ≡ ok (frame, rest)
      → process_http2_frame context frame ≡ ok p
      → request_end p.context p.result ≡ ok none
      → Reaches later left p.context rest
      → Reaches later left context reader

-- The loop comes to a frame of the type PUSH_PROMISE, whose parser is undefined there.
pub record PromiseFault (context : Http2Context) (reader : Bytes) : Type 0 where
  pub later : Http2Context
  pub left : Bytes
  pub reaches : Reaches later left context reader
  pub promise : get_elem? left 3 ≡ some type_push_promise
  pub faults : parse_http2_frame later left ≡ fault

-- The outcome of the loop: a request, or undefined behaviour that is that of a push promise.
abbrev pub Finishes : Http2Context → Bytes → Outcome FrameError Request → Type 0
Finishes context reader (ok r) = IsRequest context r
Finishes context reader (error e) = ⊥
Finishes context reader fault = PromiseFault context reader
Finishes context reader stuck = ⊥

-- The frame takes at least its header.
shorter :
    (context : Http2Context) (reader : Bytes) (frame : Http2Frame) (rest : Bytes)
    → Parses context reader (frame, rest)
    → length rest < length reader
shorter context reader frame rest (header, _, _, _, skipped) =
    let size : length rest ≡ length reader - (9 + header.length) =
      ap length skipped.left ∙ length-drop (9 + header.length) reader in
    omega (arith, skipped.enough)

-- A round that the loop goes on from, or that ends it.
abbrev Round : Http2StreamMap → Option RequestEnd → Type 0
Round m none = Unit
Round m (some end) = EndsWith m end

abbrev pub Never : FrameError → Type 0
Never _ = ⊥

Round-end :
    (context : Http2Context) (r : Http2ProcessFrameResult)
    → Announces context.streams r
    → Ends Never (Round context.streams) (request_end context r)
unfolding request_end
Round-end context result_ok a = tt
Round-end context (result_error false message) a = tt
Round-end context (result_error true message) a = tt
Round-end context close_connection a = tt
Round-end context (new_finished_request i) (s, found, whole) =
    rw (request_end, found) (found, whole)

-- The outcome of the rounds behind one.
later-Finishes :
    (context : Http2Context) (reader : Bytes) (frame : Http2Frame) (rest : Bytes) (p : Processed)
    → parse_http2_frame context reader ≡ ok (frame, rest)
    → process_http2_frame context frame ≡ ok p
    → request_end p.context p.result ≡ ok none
    → IsProcessed context frame p
    → (o : Outcome FrameError Request) → Finishes p.context rest o
    → Finishes context reader o
later-Finishes context reader frame rest p parses processes goes_on is (ok r) h = record {
  changes = joined (one_more frame no_change is.changes) h.changes;
  after = h.after;
  ends = h.ends;
}
later-Finishes context reader frame rest p parses processes goes_on is (error e) h = h
later-Finishes context reader frame rest p parses processes goes_on is fault h = record {
  later = h.later;
  left = h.left;
  reaches = round frame rest p parses processes goes_on h.reaches;
  promise = h.promise;
  faults = h.faults;
}
later-Finishes context reader frame rest p parses processes goes_on is stuck h = h

-- The end of a round, and the rest of the loop.
after-Round :
    (context : Http2Context) (reader : Bytes) (frame : Http2Frame) (p : Processed)
    (rest sent : Bytes) (fuel : ℕ)
    → parse_http2_frame context reader ≡ ok (frame, rest)
    → process_http2_frame context frame ≡ ok p
    → IsProcessed context frame p
    → Finishes p.context rest (request_loop fuel p.context rest (sent ++ p.sent))
    → (o : Outcome FrameError (Option RequestEnd)) → request_end p.context p.result ≡ o
    → Ends Never (Round p.context.streams) o
    → Finishes context reader (elim o [
      | error e ↦ ok (record {
        end = request_error e.message;
        context = p.context;
        reader = none;
        sent = (sent ++ p.sent) ++ e.sent;
      })
      | fault ↦ fault
      | stuck ↦ stuck
      | ok (some end) ↦
          ok (record { end = end; context = p.context; reader = some rest; sent = sent ++ p.sent })
      | ok none ↦ request_loop fuel p.context rest (sent ++ p.sent)
    ])
after-Round context reader frame p rest sent fuel parses processes is h (ok none) same ends =
    later-Finishes context reader frame rest p parses processes same is
      (request_loop fuel p.context rest (sent ++ p.sent)) h
after-Round context reader frame p rest sent fuel parses processes is h (ok (some end)) same ends =
    record { changes = one_more frame no_change is.changes; after = is.after; ends = ends }
after-Round context reader frame p rest sent fuel parses processes is h (error e) same ends =
    elim ends [ ]
after-Round context reader frame p rest sent fuel parses processes is h fault same ends =
    elim ends [ ]
after-Round context reader frame p rest sent fuel parses processes is h stuck same ends =
    elim ends [ ]

-- The processing of a frame, and the rest of the loop.
after_process :
    (context : Http2Context) (reader : Bytes) (frame : Http2Frame) (rest sent : Bytes) (fuel : ℕ)
    → parse_http2_frame context reader ≡ ok (frame, rest)
    → ((p : Processed)
        → IsContext p.context
        → Finishes p.context rest (request_loop fuel p.context rest (sent ++ p.sent)))
    → (o : Outcome SendError Processed) → process_http2_frame context frame ≡ o
    → Ends Nothing (IsProcessed context frame) o
    → Finishes context reader (elim o [
      | error _ ↦ fault
      | fault ↦ fault
      | stuck ↦ stuck
      | ok p ↦ elim (request_end p.context p.result) [
        | error e ↦ ok (record {
          end = request_error e.message;
          context = p.context;
          reader = none;
          sent = (sent ++ p.sent) ++ e.sent;
        })
        | fault ↦ fault
        | stuck ↦ stuck
        | ok (some end) ↦
            ok
              (record { end = end; context = p.context; reader = some rest; sent = sent ++ p.sent })
        | ok none ↦ request_loop fuel p.context rest (sent ++ p.sent)
      ]
    ])
after_process context reader frame rest sent fuel parses later (ok p) same is =
    after-Round context reader frame p rest sent fuel parses same is (later p is.after)
      (request_end p.context p.result) refl (Round-end p.context p.result is.announces)
after_process context reader frame rest sent fuel parses later (error e) same is = elim is [ ]
after_process context reader frame rest sent fuel parses later fault same is = elim is [ ]
after_process context reader frame rest sent fuel parses later stuck same is = elim is [ ]

-- A parser of a frame that is undefined is that of a push promise.
fault-promise :
    (context : Http2Context) (reader : Bytes)
    → parse_http2_frame context reader ≡ fault
    → get_elem? reader 3 ≡ some type_push_promise
fault-promise context reader faults = elim (Option-cases (get_elem? reader 3)) [
  | inl e ↦ absurd (other λ h. cc)
  | inr (t, e) ↦ elim (Bool-cases (t == type_push_promise)) [
    | inl same ↦ e ∙ ap some ((==_iff t type_push_promise).0 same)
    | inr differs ↦
        absurd (other λ h. differ t differs (some-injective t type_push_promise (sym e ∙ h)))
  ]
]
  where
    other : (get_elem? reader 3 ≡ some type_push_promise → ⊥) → ⊥
    other h = rw faults at (parse_http2_frame-Ends context reader h)

    differ : (t : ℕ) → (t == type_push_promise) ≡ false → t ≡ type_push_promise → ⊥
    differ t h e = ground arith

loop-Finishes :
    (fuel : ℕ) (context : Http2Context) (reader sent : Bytes)
    → length reader < fuel
    → IsContext context
    → Finishes context reader (request_loop fuel context reader sent)
unfolding request_loop
loop-Finishes zero context reader sent enough is = absurd (omega arith)
loop-Finishes (suc fuel) context reader sent enough is =
    after_parse (parse_http2_frame context reader) refl (parse_http2_frame-Ensures context reader) _
      λ frame rest parses same.
        after_process context reader frame rest sent fuel same
          (λ p is'.
            loop-Finishes fuel p.context rest (sent ++ p.sent)
              (omega (arith, shorter context reader frame rest parses)) is')
          (process_http2_frame context frame) refl
          (process_http2_frame-IsProcessed context frame is parses.3)
  where
    after_parse :
        (o : Outcome FrameError (Http2Frame × Bytes))
        → parse_http2_frame context reader ≡ o
        → Ensures (IsRefusal context) (Parses context reader) o
        → (k : Http2Frame → Bytes → Outcome FrameError Request)
        → ((frame : Http2Frame) (rest : Bytes)
            → Parses context reader (frame, rest)
            → parse_http2_frame context reader ≡ ok (frame, rest)
            → Finishes context reader (k frame rest))
        → Finishes context reader (elim o [
          | error e ↦ ok (record {
            end = request_error e.message;
            context = context;
            reader = none;
            sent = sent ++ e.sent;
          })
          | fault ↦ fault
          | stuck ↦ stuck
          | ok (frame, rest) ↦ k frame rest
        ])
    after_parse (ok (frame, rest)) same h k go = go frame rest h same
    after_parse (error e) same h k go = record { changes = no_change; after = is; ends = tt }
    after_parse fault same h k go = record {
      later = context;
      left = reader;
      reaches = here;
      promise = fault-promise context reader same;
      faults = same;
    }
    after_parse stuck same h k go = h

-- Reading a request from any bytes, in a context that is in range, comes to an end. Either that is in
-- a stream that is complete, in an error or in the end of the connection, with a context that is in
-- range and whose streams have changed as its frames may change them; or the loop has come, by whole
-- rounds, to a frame of the type PUSH_PROMISE whose parser is undefined. There is no other undefined
-- behaviour.
pub parse_http2_request-IsRequest :
    (context : Http2Context) (reader : Bytes)
    → IsContext context
    → Finishes context reader (parse_http2_request context reader)
unfolding parse_http2_request
parse_http2_request-IsRequest context reader is =
    loop-Finishes (suc (length reader)) context reader [] (omega arith) is
