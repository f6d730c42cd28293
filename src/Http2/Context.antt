-- ===== src/Http2/Context.antt =====
-- The state of a connection, HTTP2Context of src/http/v2.h, and the lookups of src/http/v2.c in its
-- stream map. The map is a list of pairs; one with no room for a stream is not modelled.
pub mod Lookup
use my_simple_c_http_server.Prelude.{
  ℕ, Bool, true, false, List, [], ◌∷◌, Option, none, some, ◌==◌, if◌then◌else◌, Bytes,
}
use my_simple_c_http_server.Hpack.TableState.{
  HpackDynamicTableState, get_default_hpack_dynamic_table_state,
}
use my_simple_c_http_server.Http2.Types.{
  Http2Identifier, Http2FramePriority, Http2Settings, http2_default_settings,
  default_header_table_size,
}

pub data Http2StreamState : Type 0 where
  idle reserved open_state half_closed closed : Http2StreamState

pub record Http2StreamHeaders : Type 0 where
  pub finished : Bool
  pub header_blocks : List Bytes

-- The field `finished` of the content is never written.
pub record Http2Stream : Type 0 where
  pub state : Http2StreamState
  pub headers : Http2StreamHeaders
  pub data_blocks : List Bytes
  pub end_stream : Bool
  pub priority : Http2FramePriority

abbrev pub Http2StreamMap : Type 0
Http2StreamMap = List (Http2Identifier × Http2Stream)

pub data Http2State : Type 0 where
  state_open : Http2State
  state_closed : ℕ → Http2State

pub record Http2Context : Type 0 where
  pub settings : Http2Settings
  pub streams : Http2StreamMap
  pub last_stream_id : Http2Identifier
  pub state : Http2State
  pub decompress_state : HpackDynamicTableState
  pub compress_state : HpackDynamicTableState

abbrev pub http2_default_context : Http2Context
http2_default_context = record {
  settings = http2_default_settings;
  streams = [];
  last_stream_id = 0;
  state = state_open;
  decompress_state = get_default_hpack_dynamic_table_state default_header_table_size;
  compress_state = get_default_hpack_dynamic_table_state default_header_table_size;
}

-- `TMAP_GET`
pub get_http2_stream : Http2Identifier → Http2StreamMap → Option Http2Stream
get_http2_stream identifier [] = none
get_http2_stream identifier ((key, stream) ∷ streams) =
    if key == identifier then some stream else get_http2_stream identifier streams

-- A stream that the map does not have is idle.
unfoldable pub get_http2_stream_state : Http2Identifier → Http2StreamMap → Http2StreamState
get_http2_stream_state identifier streams = elim (get_http2_stream identifier streams) [
  | none ↦ idle
  | some stream ↦ stream.state
]

-- A write through the pointer that `get_http2_stream` returns.
pub set_stream : Http2Identifier → Http2Stream → Http2StreamMap → Http2StreamMap
set_stream identifier stream [] = []
set_stream identifier stream ((key, old) ∷ streams) =
    if key == identifier
    then (key, stream) ∷ streams
    else (key, old) ∷ set_stream identifier stream streams

-- `TMAP_INSERT` that does not replace: `none` where the map has the stream.
unfoldable pub add_new_http2_stream :
    Http2Identifier → Http2Stream → Http2StreamMap → Option Http2StreamMap
add_new_http2_stream identifier stream streams = elim (get_http2_stream identifier streams) [
  | none ↦ some ((identifier, stream) ∷ streams)
  | some _ ↦ none
]
