-- ===== src/Http2/Streams/Invariants.antt =====
-- What the steps of the stream map of src/http/v2.c keep of its streams.
use mathlib.Core.Path.{subst}
use mathlib.Core.Option.{some-injective}
use my_simple_c_http_server.Prelude.{
  ◌≡◌, ◌≢◌, refl, sym, ◌∙◌, ◌⊎◌, inl, inr, Bool, true, false, [], ◌∷◌, none, some, ◌==◌, Bool-cases,
  ==_iff,
}
use my_simple_c_http_server.Http2.Types.{
  Http2Identifier, Http2FramePriority, Http2Frame, Http2RstStreamFrame, rst_stream_frame,
}
use my_simple_c_http_server.Http2.Context.{
  Http2StreamState, idle, reserved, open_state, half_closed, closed, Http2Stream, Http2StreamMap,
  get_http2_stream, get_http2_stream_state, set_stream,
}
use my_simple_c_http_server.Http2.Context.Lookup.{
  state_of, state_none, get-set_self, get-set_other, get-cons_self, get-cons_other, same_state,
}
use my_simple_c_http_server.Http2.Streams.{new_stream}
use my_simple_c_http_server.Http2.Streams.Steps.{
  ◌⟿◌, set_priority, start_headers, add_header, add_content, complete, close, Changes, by_steps,
  by_reset, ◌↪◌, edit, open_new, idle_new, promise, ◌↪*◌, start, next,
}

-- Content comes behind the headers, and a closed stream holds nothing.
pub record IsStream (s : Http2Stream) : Type 0 where
  pub content_after : (s.data_blocks ≡ []) ⊎ (s.headers.finished ≡ true)
  pub closed_empty : s.state ≡ closed → (s.headers.header_blocks ≡ []) × (s.data_blocks ≡ [])

pub record AreStreams (m : Http2StreamMap) : Type 0 where
  pub each : (i : Http2Identifier) (s : Http2Stream) → get_http2_stream i m ≡ some s → IsStream s

-- The diagram of the states, on the side of the code's five: from idle to open or reserved, from these
-- two to half closed, and from any to closed.
infix 40 ◌⟶◌ ◌⟶*◌
pub data ◌⟶◌ : Http2StreamState → Http2StreamState → Type 0 where
  receive_headers : idle ⟶ open_state
  receive_promise : idle ⟶ reserved
  end_open : open_state ⟶ half_closed
  end_reserved : reserved ⟶ half_closed
  abandon : {s : Http2StreamState} → s ⟶ closed

pub data ◌⟶*◌ (s : Http2StreamState) : Http2StreamState → Type 0 where
  stay : s ⟶* s
  go : {t u : Http2StreamState} → s ⟶* t → t ⟶ u → s ⟶* u

-- A lookup after a write to `i`, in the two cases.
written :
    (i j : Http2Identifier) (old new s : Http2Stream) (m : Http2StreamMap)
    → get_http2_stream i m ≡ some old
    → get_http2_stream j (set_stream i new m) ≡ some s
    → ((i ≡ j) × (s ≡ new)) ⊎ (get_http2_stream j m ≡ some s)
written i j old new s m found h = elim (Bool-cases (i == j)) [
  | inl e ↦
      let same : i ≡ j = (==_iff i j).0 e in
      inl (
        same,
        some-injective s new (
            sym h
            ∙ subst (λ k. get_http2_stream k (set_stream i new m) ≡ some new) same
                (get-set_self i old new m found)),
      )
  | inr e ↦ inr (sym (get-set_other i j new m (λ same. differ e ((==_iff i j).1 same))) ∙ h)
]
  where
    differ : (i == j) ≡ false → (i == j) ≡ true → ⊥
    differ p q = cc

put :
    (i j : Http2Identifier) (new s : Http2Stream) (m : Http2StreamMap)
    → get_http2_stream j ((i, new) ∷ m) ≡ some s
    → ((i ≡ j) × (s ≡ new)) ⊎ (get_http2_stream j m ≡ some s)
put i j new s m h = elim (Bool-cases (i == j)) [
  | inl e ↦
      let same : i ≡ j = (==_iff i j).0 e in
      inl (
        same,
        some-injective s new (
            sym h
            ∙ subst (λ k. get_http2_stream k ((i, new) ∷ m) ≡ some new) same
                (get-cons_self i new m)),
      )
  | inr e ↦ inr (sym (get-cons_other i j new m (λ same. differ e ((==_iff i j).1 same))) ∙ h)
]
  where
    differ : (i == j) ≡ false → (i == j) ≡ true → ⊥
    differ p q = cc

contrary : (b : Bool) → b ≡ true → b ≡ false → ⊥
contrary b p q = cc

⟿-IsStream : {s t : Http2Stream} → s ⟿ t → IsStream s → IsStream t
⟿-IsStream (set_priority p) v = record {
  content_after = v.content_after;
  closed_empty = v.closed_empty;
}
⟿-IsStream (start_headers e p h) v = record {
  content_after = v.content_after;
  closed_empty = v.closed_empty;
}
⟿-IsStream (add_header block finished alive whole unfinished) v = record {
  content_after = elim v.content_after [ inl e ↦ inl e | inr e ↦ absurd (contrary _ e unfinished) ];
  closed_empty = λ c. absurd (alive c);
}
⟿-IsStream (add_content block e states finished going) v = record {
  content_after = inr finished;
  closed_empty = λ c. elim states [ inl o ↦ cc | inr o ↦ cc ];
}
⟿-IsStream (complete alive ended finished) v = record {
  content_after = v.content_after;
  closed_empty = λ c. cc;
}
⟿-IsStream close v = record { content_after = inl refl; closed_empty = λ c. (refl, refl) }

to_half : (s : Http2StreamState) → s ≢ closed → s ⟶* half_closed
to_half idle alive = go (go stay receive_headers) end_open
to_half reserved alive = go stay end_reserved
to_half open_state alive = go stay end_open
to_half half_closed alive = stay
to_half closed alive = absurd (alive refl)

⟿-⟶* : {s t : Http2Stream} → s ⟿ t → s.state ⟶* t.state
⟿-⟶* (set_priority p) = stay
⟿-⟶* (start_headers e p h) = stay
⟿-⟶* (add_header block finished alive whole unfinished) = stay
⟿-⟶* (add_content block e states finished going) = stay
⟿-⟶* {s} (complete alive ended finished) = to_half s.state alive
⟿-⟶* close = go stay abandon

new_IsStream : (state : Http2StreamState) (e : Bool) (p : _) → IsStream (new_stream state e p)
new_IsStream state e p = record { content_after = inl refl; closed_empty = λ c. (refl, refl) }

added_IsStream :
    (m : Http2StreamMap) (i : Http2Identifier) (new : Http2Stream)
    → IsStream new
    → AreStreams m
    → AreStreams ((i, new) ∷ m)
added_IsStream m i new v all = record {
  each =
      λ j s h. elim (put i j new s m h) [ inl (same, e) ↦ rw e v | inr found ↦ all.each j s found ];
}

promised-IsStream :
    (p : Http2FramePriority) (new : Http2Stream)
    → (new ≡ new_stream reserved false p) ⊎ (new_stream reserved false p ⟿ new)
    → IsStream new
promised-IsStream p new (inl e) = rw e (new_IsStream reserved false p)
promised-IsStream p new (inr e) = ⟿-IsStream e (new_IsStream reserved false p)

↪-AreStreams : {m n : Http2StreamMap} → m ↪ n → AreStreams m → AreStreams n
↪-AreStreams {m} (edit i old new found e) all = record {
  each = λ j s h. elim (written i j old new s m found h) [
    | inl (same, eq) ↦ rw eq (⟿-IsStream e (all.each i old found))
    | inr h' ↦ all.each j s h'
  ];
}
↪-AreStreams {m} (open_new i e p none_yet) all =
    added_IsStream m i _ (new_IsStream open_state e p) all
↪-AreStreams {m} (idle_new i p none_yet) all = added_IsStream m i _ (new_IsStream idle false p) all
↪-AreStreams {m} (promise i new p none_yet k) all =
    added_IsStream m i new (promised-IsStream p new k) all

↪*-AreStreams : {m n : Http2StreamMap} → m ↪* n → AreStreams m → AreStreams n
↪*-AreStreams start all = all
↪*-AreStreams (next r q) all = ↪-AreStreams q (↪*-AreStreams r all)

onward : {s t u : Http2StreamState} → s ⟶* t → t ⟶* u → s ⟶* u
onward r stay = r
onward r (go q e) = go (onward r q) e

-- The state of `j` after a write to `i`.
edited-⟶* :
    (m : Http2StreamMap) (i j : Http2Identifier) (old new : Http2Stream)
    → get_http2_stream i m ≡ some old
    → old.state ⟶* new.state
    → get_http2_stream_state j m ⟶* get_http2_stream_state j (set_stream i new m)
edited-⟶* m i j old new found r = elim (Bool-cases (i == j)) [
  | inl e ↦
      let same : j ≡ i = sym ((==_iff i j).0 e) in
      rw same (rw (state_of i old m found, state_of i new _ (get-set_self i old new m found)) r)
  | inr e ↦
      subst (λ k. get_http2_stream_state j m ⟶* k)
        (same_state j m _
          (sym (get-set_other i j new m (λ same. contrary _ ((==_iff i j).1 same) e))))
        stay
]

put-⟶* :
    (m : Http2StreamMap) (i j : Http2Identifier) (new : Http2Stream)
    → get_http2_stream i m ≡ none
    → idle ⟶* new.state
    → get_http2_stream_state j m ⟶* get_http2_stream_state j ((i, new) ∷ m)
put-⟶* m i j new absent r = elim (Bool-cases (i == j)) [
  | inl e ↦
      let same : j ≡ i = sym ((==_iff i j).0 e) in
      rw same (rw (state_none i m absent, state_of i new _ (get-cons_self i new m)) r)
  | inr e ↦
      subst (λ k. get_http2_stream_state j m ⟶* k)
        (same_state j m _
          (sym (get-cons_other i j new m (λ same. contrary _ ((==_iff i j).1 same) e))))
        stay
]

promised-⟶* :
    (p : Http2FramePriority) (new : Http2Stream)
    → (new ≡ new_stream reserved false p) ⊎ (new_stream reserved false p ⟿ new)
    → idle ⟶* new.state
promised-⟶* p new (inl e) = rw e (go stay receive_promise)
promised-⟶* p new (inr e) = onward (go stay receive_promise) (⟿-⟶* e)

↪-⟶* :
    {m n : Http2StreamMap}
    → m ↪ n
    → (j : Http2Identifier) → get_http2_stream_state j m ⟶* get_http2_stream_state j n
↪-⟶* {m} (edit i old new found e) j = edited-⟶* m i j old new found (⟿-⟶* e)
↪-⟶* {m} (open_new i e p absent) j = put-⟶* m i j _ absent (go stay receive_headers)
↪-⟶* {m} (idle_new i p absent) j = put-⟶* m i j _ absent stay
↪-⟶* {m} (promise i new p absent k) j = put-⟶* m i j new absent (promised-⟶* p new k)

↪*-⟶* :
    {m n : Http2StreamMap}
    → m ↪* n
    → (j : Http2Identifier) → get_http2_stream_state j m ⟶* get_http2_stream_state j n
↪*-⟶* start j = stay
↪*-⟶* (next r q) j = onward (↪*-⟶* r j) (↪-⟶* q j)

pub Changes-AreStreams :
    {frame : Http2Frame} {m n : Http2StreamMap} → Changes frame m n → AreStreams m → AreStreams n
Changes-AreStreams (by_steps r) all = ↪*-AreStreams r all
Changes-AreStreams {frame} {m} (by_reset i old reset e same found busy other) all = record {
  each = λ j s h. elim (written i j old (record old { state = half_closed }) s m found h) [
    | inl (_, eq) ↦ rw eq (half_IsStream old (all.each i old found))
    | inr h' ↦ all.each j s h'
  ];
}
  where
    half_IsStream : (s : Http2Stream) → IsStream s → IsStream (record s { state = half_closed })
    half_IsStream s v = record { content_after = v.content_after; closed_empty = λ c. cc }

-- A frame moves the state of the stream `i` along the diagram; or it is RST_STREAM for `i`, which is
-- reserved, open or closed and comes to be half closed.
abbrev pub Moves : Http2Frame → Http2Identifier → Http2StreamState → Http2StreamState → Type 0
Moves frame i before after =
    (before ⟶* after)
    ⊎ ((reset : Http2RstStreamFrame) × (frame ≡ rst_stream_frame reset)
        × (reset.identifier ≡ i)
        × (before ≢ idle)
        × (before ≢ half_closed)
        × (after ≡ half_closed))

pub Changes-Moves :
    {frame : Http2Frame} {m n : Http2StreamMap}
    → Changes frame m n
    → (j : Http2Identifier)
    → Moves frame j (get_http2_stream_state j m) (get_http2_stream_state j n)
Changes-Moves (by_steps r) j = inl (↪*-⟶* r j)
Changes-Moves {frame} {m} (by_reset i old reset e same found busy other) j =
    elim (Bool-cases (i == j)) [
      | inl h ↦
          let here : i ≡ j = (==_iff i j).0 h in
          let found' : get_http2_stream j m ≡ some old = rw here at found in
          let state : get_http2_stream_state j m ≡ old.state = state_of j old m found' in
          let after : get_http2_stream_state j (set_stream i half m) ≡ half_closed =
            state_of j half _ (
              subst (λ k. get_http2_stream k (set_stream i half m) ≡ some half) here
                (get-set_self i old half m found)) in
          inr (
            reset,
            e,
            same ∙ here,
            λ idle_before. busy (sym state ∙ idle_before),
            λ half_before. other (sym state ∙ half_before),
            after,
          )
      | inr h ↦ inl (
          subst (λ k. get_http2_stream_state j m ⟶* k)
            (same_state j m _
              (sym (get-set_other i j half m (λ here. contrary _ ((==_iff i j).1 here) h))))
            stay)
    ]
  where
    half : Http2Stream
    half = record old { state = half_closed }
