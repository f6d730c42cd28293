-- ===== src/BufferedReader/Fill.antt =====
-- The reads of src/utils/buffered_reader.c, against the bytes that a descriptor still brings.
use my_simple_c_http_server.Prelude.{
  ℕ, zero, suc, ◌+◌, ◌-◌, ◌≤◌, ◌<◌, ◌≡◌, refl, sym, ◌∙◌, ap, ◌⊎◌, inl, inr, true, false, List, [],
  ◌∷◌, ◌++◌, append_assoc, append-nil, take-drop_append, Option, some, ltb, Bool-cases, ltb-false,
  ==_iff, ◌==◌, if◌then◌else◌, Bytes, length, take, drop, length-append, length-take, arith,
}
use my_simple_c_http_server.BufferedReader.{
  Arrival, chunk, failure, pending, ReadResult, read_success, read_eof, read_error, left_over,
  read_from_descriptor, StreamState, stream_open, closed_state, error_state, BufferedReader,
  is_open, set_state, buffered_reader_is_safe_to_read, more_data,
  buffered_reader_get_more_data_partially, more_data_loop, buffered_reader_get_more_data_exact,
}

-- Whether the end of the file or an error comes behind the pending bytes.
abbrev pub end_state : List Arrival → StreamState
end_state [] = closed_state
end_state (failure ∷ arrivals) = error_state
end_state (chunk first others ∷ arrivals) = end_state arrivals

pub record IsOpen (reader : BufferedReader) : Type 0 where
  pub state : reader.state ≡ stream_open
  pub within : reader.cursor ≤ length reader.buffer

-- The bytes `got` were added to the buffer, and the stream is still open.
pub record Filled (reader after : BufferedReader) (got : Bytes) : Type 0 where
  pub state : after.state ≡ stream_open
  pub cursor : after.cursor ≡ reader.cursor
  pub buffer : after.buffer ≡ reader.buffer ++ got
  pub pending_left : pending reader.descriptor ≡ got ++ pending after.descriptor
  pub same_end : end_state after.descriptor ≡ end_state reader.descriptor

-- The stream came to its end.
pub record Ended (reader after : BufferedReader) : Type 0 where
  pub state : after.state ≡ end_state reader.descriptor
  pub cursor : after.cursor ≡ reader.cursor
  pub buffer : after.buffer ≡ reader.buffer ++ pending reader.descriptor

left_over-pending :
    (bytes : Bytes) (arrivals : List Arrival)
    → pending (left_over bytes arrivals) ≡ bytes ++ pending arrivals
left_over-pending [] arrivals = refl
left_over-pending (b ∷ bytes) arrivals = refl

left_over-end_state :
    (bytes : Bytes) (arrivals : List Arrival)
    → end_state (left_over bytes arrivals) ≡ end_state arrivals
left_over-end_state [] arrivals = refl
left_over-end_state (b ∷ bytes) arrivals = refl

-- A read of at least one byte.
read-cases :
    (arrivals : List Arrival) (n : ℕ)
    → ((got : Bytes) × (later : List Arrival) × (read_from_descriptor arrivals (suc n)
          ≡ (read_success got, later))
        × (0 < length got)
        × (length got ≤ suc n)
        × (pending arrivals ≡ got ++ pending later)
        × (end_state later ≡ end_state arrivals))
      ⊎ ((result : ReadResult) × (later : List Arrival) × (read_from_descriptor arrivals (suc n)
            ≡ (result, later))
          × (pending arrivals ≡ [])
          × (((result ≡ read_eof) × (end_state arrivals ≡ closed_state))
              ⊎ ((result ≡ read_error) × (end_state arrivals ≡ error_state))))
unfolding read_from_descriptor
read-cases [] n = inr (read_eof, [], refl, refl, inl (refl, refl))
read-cases (failure ∷ arrivals) n = inr (read_error, arrivals, refl, refl, inr (refl, refl))
read-cases (chunk first others ∷ arrivals) n = inl (
  first ∷ take n others,
  left_over (drop n others) arrivals,
  refl,
  omega arith,
  omega (arith, length-take n others),
  ap (λ l. first ∷ l)
      (ap (λ l. l ++ pending arrivals) (sym (take-drop_append n others))
        ∙ append_assoc (take n others) (drop n others) (pending arrivals)
        ∙ ap (λ l. take n others ++ l) (sym (left_over-pending (drop n others) arrivals))),
  left_over-end_state (drop n others) arrivals,
)

-- What a partial read does to an open reader.
abbrev pub Gets : BufferedReader → ℕ → ℕ × BufferedReader → Type 0
Gets reader amount (n, after) =
    ((got : Bytes) × (n ≡ length got) × (0 < n) × (n ≤ amount) × Filled reader after got)
    ⊎ ((n ≡ 0) × (pending reader.descriptor ≡ []) × Ended reader after)

pub is_safe :
    (reader : BufferedReader)
    → IsOpen reader
    → buffered_reader_is_safe_to_read reader ≡ (true, reader)
unfolding buffered_reader_is_safe_to_read
is_safe reader is = rw (buffered_reader_is_safe_to_read, is.state, ltb-false _ _ is.within) refl

pub partially-Gets :
    (reader : BufferedReader) (n : ℕ)
    → IsOpen reader
    → Gets reader (suc n) (buffered_reader_get_more_data_partially reader (suc n))
unfolding buffered_reader_get_more_data_partially more_data
partially-Gets reader n is = elim (read-cases reader.descriptor n) [
  | inl (got, later, runs, some_read, most, same, ends) ↦
      rw (buffered_reader_get_more_data_partially, is_safe reader is, runs)
        (inl (
          got,
          refl,
          some_read,
          most,
          record {
            state = refl;
            cursor = refl;
            buffer = refl;
            pending_left = same;
            same_end = ends;
          },
        ))
  | inr (result, later, runs, nothing, inl (e, ends)) ↦
      rw (buffered_reader_get_more_data_partially, is_safe reader is, runs, e)
        (inr (
          refl,
          nothing,
          record {
            state = sym ends;
            cursor = refl;
            buffer = rw nothing (sym (append-nil reader.buffer));
          },
        ))
  | inr (result, later, runs, nothing, inr (e, ends)) ↦
      rw (buffered_reader_get_more_data_partially, is_safe reader is, runs, e)
        (inr (
          refl,
          nothing,
          record {
            state = sym ends;
            cursor = refl;
            buffer = rw nothing (sym (append-nil reader.buffer));
          },
        ))
]

Filled-Filled :
    (a b c : BufferedReader) (got more : Bytes)
    → Filled a b got
    → Filled b c more
    → Filled a c (got ++ more)
Filled-Filled a b c got more f g = record {
  state = g.state;
  cursor = g.cursor ∙ f.cursor;
  buffer = g.buffer ∙ ap (λ l. l ++ more) f.buffer ∙ append_assoc a.buffer got more;
  pending_left =
      f.pending_left
      ∙ ap (λ l. got ++ l) g.pending_left
      ∙ sym (append_assoc got more (pending c.descriptor));
  same_end = g.same_end ∙ f.same_end;
}

Filled-Ended : (a b c : BufferedReader) (got : Bytes) → Filled a b got → Ended b c → Ended a c
Filled-Ended a b c got f g = record {
  state = g.state ∙ f.same_end;
  cursor = g.cursor ∙ f.cursor;
  buffer =
      g.buffer
      ∙ ap (λ l. l ++ pending b.descriptor) f.buffer
      ∙ append_assoc a.buffer got (pending b.descriptor)
      ∙ ap (λ l. a.buffer ++ l) (sym f.pending_left);
}

pub Filled-IsOpen : (a b : BufferedReader) (got : Bytes) → IsOpen a → Filled a b got → IsOpen b
Filled-IsOpen a b got is f = record {
  state = f.state;
  within = omega (arith, is.within, f.cursor, ap length f.buffer, length-append a.buffer got);
}

-- As many bytes as were asked for, or all there are.
abbrev pub Fills : BufferedReader → ℕ → BufferedReader → Type 0
Fills reader amount after =
    ((got : Bytes) × (length got ≡ amount) × Filled reader after got)
    ⊎ ((length (pending reader.descriptor) < amount) × Ended reader after)

pub end_not_open : (arrivals : List Arrival) → is_open (end_state arrivals) ≡ false
end_not_open [] = refl
end_not_open (failure ∷ arrivals) = refl
end_not_open (chunk first others ∷ arrivals) = end_not_open arrivals

not_open-loop :
    (fuel amount : ℕ) (reader : BufferedReader)
    → is_open reader.state ≡ false
    → more_data_loop (suc fuel) amount reader ≡ some reader
unfolding more_data_loop
not_open-loop fuel amount reader e = rw (more_data_loop, e) refl

differ : (n m : ℕ) → n < m → (n == m) ≡ false
differ n m h = ground arith

-- A round of the loop, and the rounds behind it.
round-Fills :
    (amount n : ℕ) (reader next : BufferedReader) (later : Option BufferedReader)
    → Gets reader (suc amount) (n, next)
    → (is_open next.state ≡ false → later ≡ some next)
    → ((got : Bytes)
        → 0 < n
        → n < suc amount
        → Filled reader next got
        → (after : BufferedReader) × (later ≡ some after) × Fills next (suc amount - n) after)
    → (after : BufferedReader) × ((if ltb (suc amount) n
          then some (set_state error_state next)
          else if n == suc amount
          then some next
          else later)
        ≡ some after)
      × Fills reader (suc amount) after
round-Fills amount n reader next later (inr (e, nothing, ended)) stops more =
    rw (ltb-false (suc amount) n (omega arith), differ n (suc amount) (omega arith))
      (
        next,
        stops (ap is_open ended.state ∙ end_not_open reader.descriptor),
        inr (omega (arith, ap length nothing), ended),
      )
round-Fills amount n reader next later (inl (got, e, some_read, most, filled)) stops more =
    elim (Bool-cases (n == suc amount)) [
      | inl whole ↦
          rw (ltb-false (suc amount) n most, whole)
            (next, refl, inl (got, sym e ∙ (==_iff n (suc amount)).0 whole, filled))
      | inr part ↦
          let below : n < suc amount = below_lem n (suc amount) most part in
          rw (ltb-false (suc amount) n most, part)
            (let (after, runs, fills) = more got some_read below filled in
              (
                after,
                runs,
                elim fills [
                  | inl (got', size, filled') ↦ inl (
                    got ++ got',
                    omega (arith, length-append got got'),
                    Filled-Filled reader next after got got' filled filled',
                  )
                  | inr (short, ended) ↦ inr (
                    omega (
                      arith,
                      ap length filled.pending_left,
                      length-append got (pending next.descriptor),
                    ),
                    Filled-Ended reader next after got filled ended,
                  )
                ],
              ))
    ]
  where
    below_lem : (a b : ℕ) → a ≤ b → (a == b) ≡ false → a < b
    below_lem a b h k = ground arith

open_round :
    (fuel amount : ℕ) (reader : BufferedReader)
    → reader.state ≡ stream_open
    → more_data_loop (suc (suc fuel)) (suc amount) reader ≡ (
        let (n, next) = buffered_reader_get_more_data_partially reader (suc amount) in
        if ltb (suc amount) n
        then some (set_state error_state next)
        else if n == suc amount
        then some next
        else more_data_loop (suc fuel) (suc amount - n) next)
unfolding more_data_loop
open_round fuel amount reader e = rw (more_data_loop, e) refl

loop-Fills :
    (fuel amount : ℕ) (reader : BufferedReader)
    → amount < fuel
    → IsOpen reader
    → (after : BufferedReader) × (more_data_loop (suc fuel) (suc amount) reader ≡ some after)
      × Fills reader (suc amount) after
loop-Fills zero amount reader enough is = absurd (omega arith)
loop-Fills (suc fuel) amount reader enough is =
    let (n, next) = buffered_reader_get_more_data_partially reader (suc amount) in
    let (after, runs, fills) =
      round-Fills amount n reader next (more_data_loop (suc fuel) (suc amount - n) next)
        (partially-Gets reader amount is) (not_open-loop fuel (suc amount - n) next)
        (λ got some_read below filled.
          let more : ℕ = amount - n in
          let size : suc amount - n ≡ suc more = omega arith in
          rw size
            (loop-Fills fuel more next (omega arith) (Filled-IsOpen reader next got is filled))) in
    (after, open_round fuel amount reader is.state ∙ runs, fills)

-- Reading a number of bytes from an open reader ends, with these bytes behind the buffer, or at the
-- end of the stream, with all that it brought.
pub exact-Fills :
    (reader : BufferedReader) (amount : ℕ)
    → IsOpen reader
    → (after : BufferedReader) × (buffered_reader_get_more_data_exact reader (suc amount)
        ≡ some after)
      × Fills reader (suc amount) after
unfolding buffered_reader_get_more_data_exact
exact-Fills reader amount is =
    let size : suc amount + 2 ≡ suc (amount + 2) = omega arith in
    rw (buffered_reader_get_more_data_exact, size)
      (loop-Fills (amount + 2) amount reader (omega arith) is)
