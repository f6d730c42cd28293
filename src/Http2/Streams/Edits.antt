-- ===== src/Http2/Streams/Edits.antt =====
-- What src/http/v2.c knows of a stream where it edits it.
use my_simple_c_http_server.Prelude.{
  ℕ, ◌≡◌, refl, sym, ◌∙◌, ◌≢◌, ◌⊎◌, inl, inr, Bool, true, false, not, ◌&&◌, [], ◌∷◌, ◌++◌, some,
  ◌==◌, Bytes, length, Bool-cases, ok,
}
use mathlib.Core.Path.{subst}
use mathlib.Core.Option.{some-injective}
use my_simple_c_http_server.Serialization.{serialize_u32_host_to_be}
use my_simple_c_http_server.Http2.Types.{
  Http2Identifier, Http2PushPromiseFrame, Http2RstStreamFrame, rst_stream_frame,
  default_stream_priority_ext,
}
use my_simple_c_http_server.Http2.Context.{
  Http2StreamState, idle, reserved, open_state, half_closed, closed, Http2Stream, Http2StreamMap,
  Http2Context, get_http2_stream,
}
use my_simple_c_http_server.Http2.Send.{
  SendError, http2_send_raw_frame, http2_send_rst_stream_frame, http2_send_stream_error,
}
use my_simple_c_http_server.Http2.Streams.{
  Processed, Http2ProcessFrameResult, new_finished_request, ignore_error, new_stream, is_open,
  is_half_closed, is_idle, is_reserved, http2_stream_add_header_block, promised_stream,
}
use my_simple_c_http_server.Http2.Streams.Steps.{◌⟿◌, add_header, ◌↪*◌, start, next, Changes}

-- A stream that a request can be read from.
pub record IsComplete (s : Http2Stream) : Type 0 where
  pub half : s.state ≡ half_closed
  pub ended : s.end_stream ≡ true
  pub headers_finished : s.headers.finished ≡ true

-- A result that announces a request names a complete stream.
abbrev pub Announces : Http2StreamMap → Http2ProcessFrameResult → Type 0
Announces m (new_finished_request i) =
    (s : Http2Stream) × (get_http2_stream i m ≡ some s) × IsComplete s
Announces m _ = Unit

abbrev pub Nothing : SendError → Type 0
Nothing _ = ⊥

-- The context but for its streams, as far as a frame for a stream could change it.
pub record Keeps (c d : Http2Context) : Type 0 where
  pub settings : d.settings ≡ c.settings
  pub decompress_state : d.decompress_state ≡ c.decompress_state

abbrev pub Stepped : Http2Context → Processed → Type 0
Stepped c p =
    (c.streams ↪* p.context.streams) × Keeps c p.context × Announces p.context.streams p.result

-- The same of RST_STREAM.
abbrev pub Reset : Http2Context → Http2RstStreamFrame → Processed → Type 0
Reset c frame p =
    Changes (rst_stream_frame frame) c.streams p.context.streams
    × Keeps c p.context
    × Announces p.context.streams p.result

pub stream_error_sent :
    (code i : ℕ) → (sent : Bytes) × (ignore_error (http2_send_stream_error code i) ≡ ok sent)
unfolding ignore_error http2_send_stream_error http2_send_rst_stream_frame http2_send_raw_frame
    serialize_u32_host_to_be
stream_error_sent code i = (_, refl)

pub after : {m n : Http2StreamMap} → m ↪* n → {k : Http2StreamMap} → n ↪* k → m ↪* k
after r start = r
after r (next q e) = next (after r q) e

absurd_bool : true ≡ false → ⊥
absurd_bool h = cc

pub of_not : (b : Bool) → not b ≡ false → b ≡ true
of_not true h = refl
of_not false h = cc

pub live_state :
    (state : Http2StreamState)
    → (not (is_open state) && not (is_half_closed state)) ≡ false
    → (state ≡ open_state) ⊎ (state ≡ half_closed)
live_state open_state h = inl refl
live_state half_closed h = inr refl
live_state idle h = cc
live_state reserved h = cc
live_state closed h = cc

pub live_not_closed :
    (state : Http2StreamState)
    → (not (is_open state) && not (is_half_closed state)) ≡ false
    → state ≢ closed
live_not_closed state h e = elim (live_state state h) [ inl o ↦ cc | inr o ↦ cc ]

pub and_left : (a b : Bool) → (a && b) ≡ true → a ≡ true
and_left true b h = refl
and_left false b h = cc

pub and_right : (a b : Bool) → (a && b) ≡ true → b ≡ true
and_right true b h = h
and_right false b h = cc

pub block_added :
    (s : Http2Stream) (block : Bytes) (finished : Bool)
    → s.headers.finished ≡ false
    → http2_stream_add_header_block s block finished
      ≡ some (record s {
        headers = record {
          finished = finished;
          header_blocks = s.headers.header_blocks ++ block ∷ [];
        };
      })
unfolding http2_stream_add_header_block
block_added s block finished e = rw e refl

pub idle_state : (state : Http2StreamState) → not (is_idle state) ≡ false → state ≡ idle
idle_state idle h = refl
idle_state reserved h = cc
idle_state open_state h = cc
idle_state half_closed h = cc
idle_state closed h = cc

pub not_idle : (state : Http2StreamState) → is_idle state ≡ false → state ≢ idle
not_idle state h e = let t : is_idle state ≡ true = rw e refl in cc

pub not_half : (state : Http2StreamState) → is_half_closed state ≡ false → state ≢ half_closed
not_half state h e = let t : is_half_closed state ≡ true = rw e refl in cc

pub growing :
    (state : Http2StreamState)
    → (not (is_open state) && not (is_reserved state)) ≡ false
    → (state ≢ closed) × (state ≢ half_closed)
growing idle h = absurd (absurd_bool h)
growing reserved h = (λ e. cc, λ e. cc)
growing open_state h = (λ e. cc, λ e. cc)
growing half_closed h = absurd (absurd_bool h)
growing closed h = absurd (absurd_bool h)

abbrev pub IsPromised : Http2Identifier → Http2Stream → Type 0
IsPromised i t =
    let fresh = new_stream reserved false (default_stream_priority_ext i) in
    (t ≡ fresh) ⊎ (fresh ⟿ t)

pub promised :
    (i : Http2Identifier) (frame : Http2PushPromiseFrame) (t : Http2Stream)
    → promised_stream i frame ≡ some t
    → IsPromised i t
unfolding promised_stream
promised i frame t h = elim (Bool-cases (length frame.block_fragment == 0)) [
  | inl e ↦ inl (sym (some-injective _ t (rw e at h)))
  | inr e ↦
      let fresh = new_stream reserved false (default_stream_priority_ext i) in
      let added : http2_stream_add_header_block fresh frame.block_fragment frame.end_headers
          ≡ some t =
        rw e at h in
      inr (
        subst (λ x. fresh ⟿ x)
          (some-injective _ t
            (sym (block_added fresh frame.block_fragment frame.end_headers refl) ∙ added))
          (add_header frame.block_fragment frame.end_headers (λ c. cc) (λ c. cc) refl))
]
