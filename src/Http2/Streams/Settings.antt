-- ===== src/Http2/Streams/Settings.antt =====
-- The settings that src/http/v2.c applies, and the frames that it answers.
use my_simple_c_http_server.Prelude.{
  ◌^◌, ◌≤◌, ◌<◌, ◌≡◌, refl, ◌∙◌, inl, inr, Bool, true, false, List, [], ◌∷◌, Option, none, some,
  ◌==◌, ==_iff, Bytes, length, Bool-cases, if◌then◌else◌, arith, ok,
}
use my_simple_c_http_server.Hpack.TableState.{IsSized, set_hpack_state_setting}
use my_simple_c_http_server.Hpack.TableState.Insert.{set_hpack_state_setting-Resized}
use my_simple_c_http_server.Http2.Types.{
  Http2Frame, Http2RawHeader, Http2Settings, Http2SettingSingleValue, Http2PingFrame, type_ping,
  flag_ack,
}
use my_simple_c_http_server.Http2.Context.{Http2Context}
use my_simple_c_http_server.Http2.Send.{
  http2_send_settings_frame, http2_send_ping_frame, http2_send_raw_frame, write_entries,
}
use my_simple_c_http_server.Http2.Parse.Takes.{IsSetting, AreSettings}
use my_simple_c_http_server.Http2.Streams.{Processed, ignore_error}
use my_simple_c_http_server.Http2.Streams.Steps.{Changes}
use my_simple_c_http_server.Http2.Streams.Connection.{apply_setting, http2_apply_settings_frame}
use my_simple_c_http_server.Http2.Streams.Edits.{Announces}
use my_simple_c_http_server.Http2.Streams.Invariants.{AreStreams}

-- The settings are in range, the table of the decoder is sized, and so is each stream.
pub record IsContext (context : Http2Context) : Type 0 where
  pub frame_size_low : 2 ^ 14 ≤ context.settings.max_frame_size
  pub frame_size_high : context.settings.max_frame_size ≤ 2 ^ 24
  pub window : context.settings.initial_window_size < 2 ^ 31
  pub table : IsSized context.decompress_state
  pub streams : AreStreams context.streams

-- The result of a frame: the streams have changed as it may change them, a request is that of a complete stream, and the
-- context is in range again.
pub record IsProcessed (context : Http2Context) (frame : Http2Frame) (p : Processed) : Type 0 where
  pub changes : Changes frame context.streams p.context.streams
  pub announces : Announces p.context.streams p.result
  pub after : IsContext p.context

-- A setting is applied.
abbrev pub Applied : Http2Context → Http2Context → Type 0
Applied context c = IsContext c × (c.streams ≡ context.streams)

abbrev pub IsSome : (Http2Context → Type 0) → Option Http2Context → Type 0
IsSome P none = ⊥
IsSome P (some c) = P c

some_if :
    (P : Http2Context → Type 0) (b : Bool) (m n : Option Http2Context)
    → (b ≡ true → IsSome P m)
    → (b ≡ false → IsSome P n)
    → IsSome P (if b then m else n)
some_if P true m n h k = h refl
some_if P false m n h k = k refl

some_bind :
    (P R : Http2Context → Type 0) (o : Option Http2Context) (f : Http2Context → Option Http2Context)
    → IsSome P o
    → ((c : Http2Context) → P c → IsSome R (f c))
    → IsSome R (elim o [ none ↦ none | some c ↦ f c ])
some_bind P R none f h k = h
some_bind P R (some c) f h k = k c h

some_mono :
    (P R : Http2Context → Type 0) (o : Option Http2Context)
    → IsSome P o
    → ((c : Http2Context) → P c → R c)
    → IsSome R o
some_mono P R none h k = h
some_mono P R (some c) h k = k c h

module _ (context : Http2Context) (is : IsContext context) where
  -- The settings are other ones in range.
  with_settings :
      (s : Http2Settings)
      → 2 ^ 14 ≤ s.max_frame_size
      → s.max_frame_size ≤ 2 ^ 24
      → s.initial_window_size < 2 ^ 31
      → Applied context (record context { settings = s })
  with_settings s low high window = (
    record {
      frame_size_low = low;
      frame_size_high = high;
      window = window;
      table = is.table;
      streams = is.streams;
    },
    refl,
  )

  resized :
      (entry : Http2SettingSingleValue)
      → entry.value < 2 ^ 32
      → IsSome
          (Applied context)
          (elim (set_hpack_state_setting context.decompress_state entry.value) [
            | none ↦ none
            | some state ↦ some (record context {
              settings = record context.settings { header_table_size = entry.value };
              decompress_state = state;
            })
          ])
  resized entry small =
      let (state, runs, (sized, _, _)) =
        set_hpack_state_setting-Resized context.decompress_state is.table entry.value
          (omega arith) in
      rw runs (
        record {
          frame_size_low = is.frame_size_low;
          frame_size_high = is.frame_size_high;
          window = is.window;
          table = sized;
          streams = is.streams;
        },
        refl,
      )

  apply_setting-Applied :
      (entry : Http2SettingSingleValue)
      → IsSetting entry
      → IsSome (Applied context) (apply_setting context entry)
  unfolding apply_setting
  apply_setting-Applied entry (small, frame_size, window) =
      some_if (Applied context) (entry.identifier == 1) _ _ (λ _. resized entry small)
        λ _.
          some_if (Applied context) (entry.identifier == 2) _ _
            (λ _. with_settings _ is.frame_size_low is.frame_size_high is.window)
            λ _.
              some_if (Applied context) (entry.identifier == 3) _ _
                (λ _. with_settings _ is.frame_size_low is.frame_size_high is.window)
                λ _.
                  some_if (Applied context) (entry.identifier == 4) _ _
                    (λ e.
                      with_settings _ is.frame_size_low is.frame_size_high
                        (window ((==_iff entry.identifier 4).0 e)))
                    λ _.
                      some_if (Applied context) (entry.identifier == 5) _ _
                        (λ e.
                          let range = frame_size ((==_iff entry.identifier 5).0 e) in
                          with_settings _ range.0 range.1 is.window)
                        λ _.
                          some_if (Applied context) (entry.identifier == 6) _ _
                            (λ _. with_settings _ is.frame_size_low is.frame_size_high is.window)
                            λ _. (is, refl)

pub apply_settings-Applied :
    (entries : List Http2SettingSingleValue) (context : Http2Context)
    → IsContext context
    → AreSettings entries
    → IsSome (Applied context) (http2_apply_settings_frame context entries)
unfolding http2_apply_settings_frame
apply_settings-Applied [] context is are = (is, refl)
apply_settings-Applied (entry ∷ entries) context is (one, are) =
    some_bind (Applied context) (Applied context) (apply_setting context entry)
      (λ c. http2_apply_settings_frame c entries) (apply_setting-Applied context is entry one)
      λ c (is', same).
        some_mono (Applied c) (Applied context) (http2_apply_settings_frame c entries)
          (apply_settings-Applied entries c is' are) λ d (is'', same'). (is'', same' ∙ same)

-- The acknowledgement of SETTINGS, and the answer to PING.
pub settings_ack :
    (sent : Bytes) × (ignore_error (http2_send_settings_frame (record { ack = true; entries = [] }))
      ≡ ok sent)
unfolding http2_send_settings_frame ignore_error http2_send_raw_frame write_entries
settings_ack = (_, refl)

raw_answer :
    (header : Http2RawHeader) (d : Bytes)
    → (sent : Bytes) × (ignore_error (http2_send_raw_frame header d) ≡ ok sent)
unfolding http2_send_raw_frame ignore_error
raw_answer header d = elim (Bool-cases (length d == header.length)) [
  | inl e ↦ rw (http2_send_raw_frame, e) (_, refl)
  | inr e ↦ rw (http2_send_raw_frame, e) ([], refl)
]

pub ping_answer :
    (frame : Http2PingFrame)
    → (sent : Bytes) × (ignore_error (http2_send_ping_frame frame) ≡ ok sent)
unfolding http2_send_ping_frame ignore_error
ping_answer frame = elim (Bool-cases (length frame.opaque_data == 8)) [
  | inl e ↦
      rw (http2_send_ping_frame, e)
        (raw_answer
          (record {
            length = 8;
            type = type_ping;
            flags = if frame.ack then flag_ack else 0;
            stream_identifier = 0;
          })
          frame.opaque_data)
  | inr e ↦ rw (http2_send_ping_frame, e) ([], refl)
]
