-- ===== src/Http2/Context/Lookup.antt =====
-- Lookups in the stream map of src/http/v2.c after a write.
use my_simple_c_http_server.Prelude.{◌≡◌, refl, ◌≢◌, [], ◌∷◌, none, some, arith}
use my_simple_c_http_server.Http2.Types.{Http2Identifier}
use my_simple_c_http_server.Http2.Context.{
  idle, Http2Stream, Http2StreamMap, get_http2_stream, get_http2_stream_state, set_stream,
  add_new_http2_stream,
}

pub get-set_self :
    (i : Http2Identifier) (old new : Http2Stream) (m : Http2StreamMap)
    → get_http2_stream i m ≡ some old
    → get_http2_stream i (set_stream i new m) ≡ some new
unfolding get_http2_stream set_stream
get-set_self i old new [] h = cc
get-set_self i old new ((k, s) ∷ m) h = ground (arith, get-set_self i old new m)

pub get-set_other :
    (i j : Http2Identifier) (new : Http2Stream) (m : Http2StreamMap)
    → i ≢ j
    → get_http2_stream j (set_stream i new m) ≡ get_http2_stream j m
unfolding get_http2_stream set_stream
get-set_other i j new [] h = refl
get-set_other i j new ((k, s) ∷ m) h = ground (arith, get-set_other i j new m h)

pub set-set :
    (i : Http2Identifier) (s t : Http2Stream) (m : Http2StreamMap)
    → set_stream i t (set_stream i s m) ≡ set_stream i t m
unfolding set_stream
set-set i s t [] = refl
set-set i s t ((k, u) ∷ m) = ground (arith, set-set i s t m)

pub get-cons_self :
    (i : Http2Identifier) (s : Http2Stream) (m : Http2StreamMap)
    → get_http2_stream i ((i, s) ∷ m) ≡ some s
unfolding get_http2_stream
get-cons_self i s m = ground arith

pub get-cons_other :
    (i j : Http2Identifier) (s : Http2Stream) (m : Http2StreamMap)
    → i ≢ j
    → get_http2_stream j ((i, s) ∷ m) ≡ get_http2_stream j m
unfolding get_http2_stream
get-cons_other i j s m h = ground arith

pub get-nil : (i : Http2Identifier) → get_http2_stream i [] ≡ none
unfolding get_http2_stream
get-nil i = refl

pub state_of :
    (i : Http2Identifier) (s : Http2Stream) (m : Http2StreamMap)
    → get_http2_stream i m ≡ some s
    → get_http2_stream_state i m ≡ s.state
unfolding get_http2_stream_state
state_of i s m h = rw (h, get_http2_stream_state) refl

pub state_none :
    (i : Http2Identifier) (m : Http2StreamMap)
    → get_http2_stream i m ≡ none
    → get_http2_stream_state i m ≡ idle
unfolding get_http2_stream_state
state_none i m h = rw (h, get_http2_stream_state) refl

pub add_new :
    (i : Http2Identifier) (s : Http2Stream) (m : Http2StreamMap)
    → get_http2_stream i m ≡ none
    → add_new_http2_stream i s m ≡ some ((i, s) ∷ m)
unfolding add_new_http2_stream
add_new i s m h = rw (h, add_new_http2_stream) refl

pub add_new_full :
    (i : Http2Identifier) (s old : Http2Stream) (m : Http2StreamMap)
    → get_http2_stream i m ≡ some old
    → add_new_http2_stream i s m ≡ none
unfolding add_new_http2_stream
add_new_full i s old m h = rw (h, add_new_http2_stream) refl

pub same_state :
    (i : Http2Identifier) (m n : Http2StreamMap)
    → get_http2_stream i m ≡ get_http2_stream i n
    → get_http2_stream_state i m ≡ get_http2_stream_state i n
unfolding get_http2_stream_state
same_state i m n h = rw (h, get_http2_stream_state) refl
