-- ===== src/BufferedReader/Amount.antt =====
-- buffered_reader_get_amount of src/utils/buffered_reader.c, against a list of bytes.
use my_simple_c_http_server.Prelude.{
  ℕ, zero, suc, ◌+◌, ◌-◌, ◌≤◌, ◌<◌, ◌≡◌, refl, sym, ◌∙◌, ap, inl, inr, true, false, [], ◌∷◌, ◌++◌,
  append_assoc, Option, none, some, leb, Bool-cases, ltb-false, le→leb, leb-false, leb→le,
  leb_false→lt, if◌then◌else◌, Bytes, length, take, drop, length-append, length-drop, length-take,
  take-length_append, drop-length_append, take-drop_append, arith,
}
use my_simple_c_http_server.Http2.Parse.Common.{read_amount}
use my_simple_c_http_server.Http2.Parse.Reads.{drop-drop}
use my_simple_c_http_server.BufferedReader.{
  pending, StreamState, BufferedReader, result_data, failed, Read, is_open,
  get_available_data_length, buffered_reader_get_data_until, take_amount,
  buffered_reader_get_amount, buffered_reader_invalidate_old_data,
  buffered_reader_get_more_data_exact,
}
use my_simple_c_http_server.BufferedReader.Fill.{
  end_state, IsOpen, Filled, Ended, Filled-IsOpen, is_safe, Fills, exact-Fills, end_not_open,
}

-- The bytes that a reader still has to give.
abbrev pub to_come : BufferedReader → Bytes
to_come reader = drop reader.cursor reader.buffer ++ pending reader.descriptor

-- A read against the same read of a list: the bytes and what is left, or the end of the stream.
abbrev pub Agrees : StreamState → Option (Bytes × Bytes) → Read → Type 0
Agrees end (some (bytes, rest)) (result, after) =
    (result ≡ result_data bytes) × IsOpen after × (to_come after ≡ rest)
Agrees end none (result, after) =
    (result ≡ failed end "Failed to get more data in read amount, stream not open anymore")
    × (after.state ≡ end)

pub drop-append : (n : ℕ) (xs ys : Bytes) → n ≤ length xs → drop n (xs ++ ys) ≡ drop n xs ++ ys
drop-append zero xs ys h = refl
drop-append (suc n) [] ys h = absurd (omega arith)
drop-append (suc n) (x ∷ xs) ys h = drop-append n xs ys (omega arith)

available :
    (reader : BufferedReader)
    → IsOpen reader
    → get_available_data_length reader ≡ (length reader.buffer - reader.cursor, reader)
unfolding get_available_data_length
available reader is = rw (get_available_data_length, is_safe reader is) refl

-- The front of a list is read.
read-front :
    (n : ℕ) (front rest : Bytes)
    → length front ≡ n
    → read_amount n (front ++ rest) ≡ some (front, rest)
unfolding read_amount
read-front n front rest size =
    let enough : leb (length front) (length (front ++ rest)) ≡ true =
      le→leb _ _ (omega (arith, length-append front rest)) in
    rw (← size)
      (rw (read_amount, enough, take-length_append front rest, drop-length_append front rest) refl)

read_short : (n : ℕ) (bytes : Bytes) → length bytes < n → read_amount n bytes ≡ none
unfolding read_amount
read_short n bytes h = rw (read_amount, leb-false _ _ h) refl

-- Where the buffer holds enough.
take_amount-Agrees :
    (end : StreamState) (n : ℕ) (reader : BufferedReader)
    → IsOpen reader
    → reader.cursor + n ≤ length reader.buffer
    → Agrees end (read_amount n (to_come reader)) (take_amount n reader)
unfolding take_amount
take_amount-Agrees end n reader is enough =
    let in_buffer : Bytes = drop reader.cursor reader.buffer in
    let after : BufferedReader = record reader { cursor = reader.cursor + n } in
    let size : length (take n in_buffer) ≡ n =
      omega (arith, length-take n in_buffer, length-drop reader.cursor reader.buffer) in
    let split : take n in_buffer ++ to_come after ≡ to_come reader =
      sym (
        append_assoc (take n in_buffer) (drop (reader.cursor + n) reader.buffer)
          (pending reader.descriptor))
      ∙ ap (λ l. (take n in_buffer ++ l) ++ pending reader.descriptor)
          (sym (drop-drop reader.cursor n (reader.cursor + n) reader.buffer refl))
      ∙ ap (λ l. l ++ pending reader.descriptor) (take-drop_append n in_buffer) in
    let opened : is_open reader.state ≡ true = ap is_open is.state in
    let room : n ≤ length reader.buffer - reader.cursor = omega arith in
    rw (sym (ap (read_amount n) split) ∙ read-front n (take n in_buffer) (to_come after) size) (
      rw (take_amount, opened, ltb-false _ _ is.within, ltb-false _ _ room)
        (refl, record { state = is.state; within = enough }, refl))

data_until :
    (n : ℕ) (reader : BufferedReader)
    → IsOpen reader
    → buffered_reader_get_data_until reader n ≡ (
        if leb n (length reader.buffer - reader.cursor)
        then some reader
        else buffered_reader_get_more_data_exact reader
            (n - (length reader.buffer - reader.cursor)))
unfolding buffered_reader_get_data_until
data_until n reader is = rw (buffered_reader_get_data_until, available reader is) refl

-- What the descriptor brings belongs to the bytes that are to come.
pub Filled-to_come :
    (reader after : BufferedReader) (got : Bytes)
    → IsOpen reader
    → Filled reader after got
    → to_come after ≡ to_come reader
Filled-to_come reader after got is f =
    ap (λ k. drop k after.buffer ++ pending after.descriptor) f.cursor
    ∙ ap (λ l. drop reader.cursor l ++ pending after.descriptor) f.buffer
    ∙ ap (λ l. l ++ pending after.descriptor)
        (drop-append reader.cursor reader.buffer got is.within)
    ∙ append_assoc (drop reader.cursor reader.buffer) got (pending after.descriptor)
    ∙ ap (λ l. drop reader.cursor reader.buffer ++ l) (sym f.pending_left)

-- Where the stream came to its end.
take_amount-Ended :
    (n : ℕ) (reader after : BufferedReader)
    → Ended reader after
    → Agrees (end_state reader.descriptor) none (take_amount n after)
unfolding take_amount
take_amount-Ended n reader after ended =
    let shut : is_open after.state ≡ false =
      ap is_open ended.state ∙ end_not_open reader.descriptor in
    rw (take_amount, shut)
      (
        ap (λ s. failed s "Failed to get more data in read amount, stream not open anymore")
            ended.state,
        ended.state,
      )

module _ (reader : BufferedReader) (n : ℕ) (is : IsOpen reader) where
  amount_of :
      (after : BufferedReader)
      → buffered_reader_get_data_until reader n ≡ some after
      → buffered_reader_get_amount reader n ≡ some (take_amount n after)
  unfolding buffered_reader_get_amount
  amount_of after e = rw (buffered_reader_get_amount, is_safe reader is, e) refl

  -- Reading an amount from an open reader ends. However the bytes arrive, the result is that of the
  -- same read of the list of the bytes to come: the bytes, with the reader open and what is left
  -- still to come; or, where they are too few, the end of the stream, as an error or an end of file.
  pub buffered_reader_get_amount-read_amount :
      (r : Read) × (buffered_reader_get_amount reader n ≡ some r)
      × Agrees (end_state reader.descriptor) (read_amount n (to_come reader)) r
  buffered_reader_get_amount-read_amount =
      let held : ℕ = length reader.buffer - reader.cursor in
      elim (Bool-cases (leb n held)) [
        | inl e ↦ (
          take_amount n reader,
          amount_of reader (data_until n reader is ∙ rw e refl),
          take_amount-Agrees _ n reader is (omega (arith, leb→le n held e, is.within)),
        )
        | inr e ↦
            let more : ℕ = n - held - 1 in
            let size : n - held ≡ suc more = omega (arith, leb_false→lt n held e) in
            let (after, runs, fills) = exact-Fills reader more is in
            let runs' : buffered_reader_get_data_until reader n ≡ some after =
              data_until n reader is
              ∙ rw e (ap (buffered_reader_get_more_data_exact reader) size ∙ runs) in
            (take_amount n after, amount_of after runs', filled after size fills)
      ]
    where
      filled :
          (after : BufferedReader) {more : ℕ}
          → n - (length reader.buffer - reader.cursor) ≡ suc more
          → Fills reader (suc more) after
          → Agrees
              (end_state reader.descriptor)
              (read_amount n (to_come reader))
              (take_amount n after)
      filled after size (inl (got, got_size, f)) = rw (sym (Filled-to_come reader after got is f)) (
          take_amount-Agrees _ n after (Filled-IsOpen reader after got is f) (
            omega
              (arith, is.within, f.cursor, ap length f.buffer, length-append reader.buffer got)))
      filled after size (inr (short, ended)) =
          rw
            (read_short n (to_come reader) (
              omega (
                arith,
                length-append (drop reader.cursor reader.buffer) (pending reader.descriptor),
                length-drop reader.cursor reader.buffer,
              )))
            (take_amount-Ended n reader after ended)

-- Dropping the data that an open reader has read changes nothing of what is to come, and the reader
-- stays open.
pub invalidate-to_come :
    (reader : BufferedReader)
    → IsOpen reader
    → (to_come (buffered_reader_invalidate_old_data reader) ≡ to_come reader)
      × IsOpen (buffered_reader_invalidate_old_data reader)
unfolding buffered_reader_invalidate_old_data
invalidate-to_come reader is =
    rw (buffered_reader_invalidate_old_data, is_safe reader is)
      (refl, record { state = is.state; within = omega arith })
