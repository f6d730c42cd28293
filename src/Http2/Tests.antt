-- ===== src/Http2/Tests.antt =====
-- The theorems on HTTP/2 at concrete data.
use my_simple_c_http_server.Prelude.{
  ◌≡◌, refl, true, false, List, [], ◌∷◌, ◌++◌, Bytes, arith, ok, fault, Ends,
}
use my_simple_c_http_server.Http2.Types.{
  Http2DataFrame, Http2HeadersFrame, data_frame, http2_default_settings,
  default_stream_priority_ext, header_table_size_id,
}
use my_simple_c_http_server.Http2.Context.{
  idle, closed, Http2Stream, Http2Context, get_http2_stream_state, http2_default_context,
}
use my_simple_c_http_server.Http2.Context.Lookup.{get-cons_self}
use my_simple_c_http_server.Http2.Send.{http2_send_settings_frame}
use my_simple_c_http_server.Http2.Send.Settings.{http2_send_settings_frame_faults}
use my_simple_c_http_server.Http2.Parse.{parse_http2_frame}
use my_simple_c_http_server.Http2.Parse.Reads.{IsRefusal}
use my_simple_c_http_server.Http2.Parse.Bounds.{Parses, parse_http2_frame-Ends}
use my_simple_c_http_server.Http2.Streams.{
  new_stream, result_ok, result_error, process_data, process_headers,
}
use my_simple_c_http_server.Http2.Streams.Connection.{process_http2_frame, parse_http2_request}
use my_simple_c_http_server.Http2.Streams.Edits.{Nothing}
use my_simple_c_http_server.Http2.Streams.Invariants.{Moves}
use my_simple_c_http_server.Http2.Streams.Process.{process_http2_frame-IsProcessed}
use my_simple_c_http_server.Http2.Streams.Settings.{IsProcessed}
use my_simple_c_http_server.Http2.Streams.Requests.{Finishes, parse_http2_request-IsRequest}
use my_simple_c_http_server.Http2.Streams.States.{
  process_http2_frame_states, headers_on_idle, http2_default_context-IsContext,
}
use my_simple_c_http_server.Http2.Streams.Start.{http2_send_and_receive_preface, preface_faults}
use my_simple_c_http_server.Http2.RoundTrip.Sends.{http2_send_frame, parse-send}
use my_simple_c_http_server.Http2.Fragments.{http2_send_data, http2_send_headers}
use my_simple_c_http_server.Http2.Fragments.Reads.{Reads, concat, frames_of}
use my_simple_c_http_server.Http2.Fragments.Whole.{
  data_of, headers_of, parse-http2_send_data, parse-http2_send_headers,
}

-- DATA on the stream 1 with two bytes, the last of the stream.
abbrev data_bytes : Bytes
data_bytes = 0 ∷ 0 ∷ 2 ∷ 0 ∷ 1 ∷ 0 ∷ 0 ∷ 0 ∷ 1 ∷ 104 ∷ 105 ∷ []

abbrev content : Http2DataFrame
content = record { content = 104 ∷ 105 ∷ []; is_end = true; identifier = 1 }

abbrev headers : Http2HeadersFrame
headers = record {
  priority_opt = record { has_priority = false; priority = default_stream_priority_ext 0 };
  block_fragment = 130 ∷ [];
  identifier = 1;
  end_stream = false;
  end_headers = true;
}

-- The stream 1, which a PRIORITY frame has made.
abbrev waiting : Http2Stream
waiting = new_stream idle false (default_stream_priority_ext 0)

abbrev waiting_context : Http2Context
waiting_context = record http2_default_context { streams = (1, waiting) ∷ [] }

parse_http2_frame-Ends_example :
    Ends
      (IsRefusal http2_default_context)
      (Parses http2_default_context data_bytes)
      (parse_http2_frame http2_default_context data_bytes)
parse_http2_frame-Ends_example = parse_http2_frame-Ends http2_default_context data_bytes (λ e. cc)

process_http2_frame-IsProcessed_example :
    Ends Nothing
      (IsProcessed http2_default_context (data_frame content))
      (process_http2_frame http2_default_context (data_frame content))
process_http2_frame-IsProcessed_example =
    process_http2_frame-IsProcessed http2_default_context (data_frame content)
      http2_default_context-IsContext (λ e. cc)

process_http2_frame_states_example :
    Ends Nothing
      (λ p.
        Moves
          (data_frame content)
          1
          (get_http2_stream_state 1 http2_default_context.streams)
          (get_http2_stream_state 1 p.context.streams))
      (process_http2_frame http2_default_context (data_frame content))
process_http2_frame_states_example =
    process_http2_frame_states http2_default_context (data_frame content) 1
      http2_default_context-IsContext (λ e. cc)

parse_http2_request-IsRequest_example :
    Finishes http2_default_context data_bytes (parse_http2_request http2_default_context data_bytes)
parse_http2_request-IsRequest_example =
    parse_http2_request-IsRequest http2_default_context data_bytes http2_default_context-IsContext

headers_on_idle_example :
    Ends Nothing
      (λ p.
        (p.result ≡ result_ok)
        × (get_http2_stream_state 1 p.context.streams ≡ idle)
        × Ends Nothing
            (λ q.
              (q.result ≡ result_error false "Data frame send on a stream in an invalid state")
              × (get_http2_stream_state 1 q.context.streams ≡ closed))
            (process_data p.context 1 content))
      (process_headers waiting_context 1 headers)
headers_on_idle_example =
    headers_on_idle waiting_context 1 waiting headers content (get-cons_self 1 waiting []) refl refl
      refl refl

http2_send_settings_frame_faults_example :
    http2_send_settings_frame (record {
      ack = false;
      entries = (record { identifier = header_table_size_id; value = 4096 }) ∷ [];
    })
    ≡ fault
http2_send_settings_frame_faults_example =
    http2_send_settings_frame_faults (record { identifier = header_table_size_id; value = 4096 }) []
      (omega arith)

preface_faults_example : http2_send_and_receive_preface http2_default_context data_bytes ≡ fault
preface_faults_example =
    preface_faults http2_default_context data_bytes http2_default_context-IsContext.table

parse-send_example :
    (sent : Bytes) × (http2_send_frame (data_frame content) ≡ ok sent)
    × (parse_http2_frame http2_default_context (sent ++ data_bytes)
        ≡ ok (data_frame content, data_bytes))
parse-send_example = parse-send http2_default_context data_bytes (data_frame content) (record {
  stream = λ e. cc;
  identifier_31 = omega arith;
  length_24 = omega arith;
  fits = omega arith;
})

parse-http2_send_data_example :
    (sent : Bytes) × (http2_send_data 1 http2_default_settings data_bytes ≡ ok sent)
    × ((contents : List Bytes) × Reads http2_default_context []
          (sent ++ [])
          (frames_of (data_of 1) 0 contents)
        × (concat contents ≡ data_bytes))
parse-http2_send_data_example =
    parse-http2_send_data http2_default_context 1 http2_default_settings data_bytes [] (λ e. cc)
      (omega arith) (omega arith) (omega arith) (omega arith) (omega arith)

parse-http2_send_headers_example :
    (sent : Bytes) × (http2_send_headers 1 http2_default_settings data_bytes true ≡ ok sent)
    × ((fragments : List Bytes) × Reads http2_default_context []
          (sent ++ [])
          (frames_of (headers_of 1 true) 0 fragments)
        × (concat fragments ≡ data_bytes))
parse-http2_send_headers_example =
    parse-http2_send_headers http2_default_context 1 http2_default_settings data_bytes [] (λ e. cc)
      (omega arith) (omega arith) (omega arith) (omega arith) true (omega arith)
