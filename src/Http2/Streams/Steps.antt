-- ===== src/Http2/Streams/Steps.antt =====
-- The edits that src/http/v2.c makes of a stream and of the stream map, as a step relation.
use my_simple_c_http_server.Prelude.{
  ◌≡◌, ◌≢◌, ◌⊎◌, Bool, true, false, [], ◌∷◌, ◌++◌, none, some, Bytes,
}
use my_simple_c_http_server.Http2.Types.{
  Http2Identifier, Http2FramePriority, Http2Frame, Http2RstStreamFrame, rst_stream_frame,
}
use my_simple_c_http_server.Http2.Context.{
  idle, reserved, open_state, half_closed, closed, Http2Stream, Http2StreamMap, get_http2_stream,
  set_stream,
}
use my_simple_c_http_server.Http2.Streams.{http2_close_stream, new_stream}

-- One edit of a stream, with what holds of the stream where the code makes it.
infix 40 ◌⟿◌
pub data ◌⟿◌ (s : Http2Stream) : Http2Stream → Type 0 where
  set_priority : (priority : Http2FramePriority) → s ⟿ record s { priority = priority }
  start_headers :
      (end_stream : Bool) (priority : Http2FramePriority)
      → s.state ≡ idle
      → s ⟿ record s { end_stream = end_stream; priority = priority }
  add_header :
      (block : Bytes) (finished : Bool)
      → s.state ≢ closed
      → s.state ≢ half_closed
      → s.headers.finished ≡ false
      → s ⟿ record s {
        headers = record {
          finished = finished;
          header_blocks = s.headers.header_blocks ++ block ∷ [];
        };
      }
  add_content :
      (block : Bytes) (end_stream : Bool)
      → (s.state ≡ open_state) ⊎ (s.state ≡ half_closed)
      → s.headers.finished ≡ true
      → s.end_stream ≡ false
      → s ⟿ record s { data_blocks = s.data_blocks ++ block ∷ []; end_stream = end_stream }
  complete :
      s.state ≢ closed
      → s.end_stream ≡ true
      → s.headers.finished ≡ true
      → s ⟿ record s { state = half_closed }
  close : s ⟿ http2_close_stream s

-- A step of the map: an edit of one of its streams, or a new stream.
infix 40 ◌↪◌ ◌↪*◌
pub data ◌↪◌ (m : Http2StreamMap) : Http2StreamMap → Type 0 where
  edit :
      (i : Http2Identifier) (old new : Http2Stream)
      → get_http2_stream i m ≡ some old
      → old ⟿ new
      → m ↪ set_stream i new m
  open_new :
      (i : Http2Identifier) (end_stream : Bool) (priority : Http2FramePriority)
      → get_http2_stream i m ≡ none
      → m ↪ ((i, new_stream open_state end_stream priority) ∷ m)
  idle_new :
      (i : Http2Identifier) (priority : Http2FramePriority)
      → get_http2_stream i m ≡ none
      → m ↪ ((i, new_stream idle false priority) ∷ m)
  promise :
      (i : Http2Identifier) (new : Http2Stream) (priority : Http2FramePriority)
      → get_http2_stream i m ≡ none
      → (new ≡ new_stream reserved false priority) ⊎ (new_stream reserved false priority ⟿ new)
      → m ↪ ((i, new) ∷ m)

pub data ◌↪*◌ (m : Http2StreamMap) : Http2StreamMap → Type 0 where
  start : m ↪* m
  next : {n k : Http2StreamMap} → m ↪* n → n ↪ k → m ↪* k

-- What a frame does to the map: steps; or, as RST_STREAM alone, it makes the stream that it names half
-- closed, where that is reserved, open or closed.
pub data Changes (frame : Http2Frame) (m : Http2StreamMap) : Http2StreamMap → Type 0 where
  by_steps : {n : Http2StreamMap} → m ↪* n → Changes frame m n
  by_reset :
      (i : Http2Identifier) (old : Http2Stream) (reset : Http2RstStreamFrame)
      → frame ≡ rst_stream_frame reset
      → reset.identifier ≡ i
      → get_http2_stream i m ≡ some old
      → old.state ≢ idle
      → old.state ≢ half_closed
      → Changes frame m (set_stream i (record old { state = half_closed }) m)

-- What the frames of a connection do to it, one after the other.
pub data ManyChanges (m : Http2StreamMap) : Http2StreamMap → Type 0 where
  no_change : ManyChanges m m
  one_more :
      {n k : Http2StreamMap} (frame : Http2Frame)
      → ManyChanges m n
      → Changes frame n k
      → ManyChanges m k
