-- ===== src/BufferedReader/Delimiter.antt =====
-- buffered_reader_get_until_delimiter_impl of src/utils/buffered_reader.c.
use my_simple_c_http_server.Prelude.{
  ℕ, zero, suc, ◌+◌, ◌-◌, ◌≤◌, ◌<◌, ◌≡◌, refl, sym, ◌∙◌, ap, inl, inr, true, false, [], ◌∷◌, ◌++◌,
  append_assoc, append-nil, Option, some, leb, ◌==◌, ==_iff, Bool-cases, leb→le, leb_false→lt,
  if◌then◌else◌, get_or, Bytes, length, take, drop, length-append, length-take, length-drop,
  take-length_append, arith,
}
use my_simple_c_http_server.BufferedReader.{
  pending, StreamState, stream_open, closed_state, error_state, BufferedReader, result_data, failed,
  Read, is_open, until_delimiter, buffered_reader_get_until_delimiter_impl,
}
use my_simple_c_http_server.BufferedReader.Fill.{IsOpen, Filled, is_safe}
use my_simple_c_http_server.BufferedReader.Amount.{to_come, Filled-to_come}
use my_simple_c_http_server.BufferedReader.Rounds.{
  Filled-Scan, Scan, Splits, drop-get_or, proceed, refill, refill-Refilled, round-proceed, take-all,
  take-get_or,
}

moved : (xs ys rest : Bytes) (b : ℕ) → xs ++ ys ++ (b ∷ rest) ≡ xs ++ (ys ++ b ∷ []) ++ rest
moved xs ys rest b =
    append_assoc xs ys (b ∷ rest)
    ∙ ap (λ l. xs ++ l) (sym (append_assoc ys (b ∷ []) rest))
    ∙ sym (append_assoc xs (ys ++ b ∷ []) rest)

module _ (delimiter whole : Bytes) (start_cursor index : ℕ) (before : Bytes)
    (reader : BufferedReader) (s : Scan delimiter whole start_cursor index before reader)
    (inside : reader.cursor < length reader.buffer) where
  abbrev byte : ℕ
  byte = get_or reader.buffer reader.cursor 0

  abbrev behind : BufferedReader
  behind = record reader { cursor = reader.cursor + 1 }

  behind-IsOpen : IsOpen behind
  behind-IsOpen = record { state = s.is.state; within = omega arith }

  -- What was read, with the byte at the cursor.
  read_on :
      drop start_cursor reader.buffer
      ≡ before ++ (take index delimiter ++ byte ∷ []) ++ drop (reader.cursor + 1) reader.buffer
  read_on =
      s.read
      ∙ ap (λ l. before ++ take index delimiter ++ l)
          (drop-get_or reader.cursor reader.buffer inside)
      ∙ moved before (take index delimiter) (drop (reader.cursor + 1) reader.buffer) byte

  -- The delimiter up to the byte, where it matches.
  matched :
      byte ≡ get_or delimiter index 0
      → take index delimiter ++ byte ∷ [] ≡ take (index + 1) delimiter
  matched e =
      ap (λ b. take index delimiter ++ b ∷ []) e ∙ sym (take-get_or index delimiter s.partial)

  hit-Scan :
      byte ≡ get_or delimiter index 0
      → index + 1 < length delimiter
      → Scan delimiter whole start_cursor (index + 1) before behind
  hit-Scan e more = record {
    is = behind-IsOpen;
    place = omega (arith, s.place);
    partial = more;
    read = read_on ∙ ap (λ l. before ++ l ++ drop (reader.cursor + 1) reader.buffer) (matched e);
    all = s.all;
  }

  miss-Scan :
      Scan delimiter whole start_cursor 0 (before ++ (take index delimiter ++ byte ∷ [])) behind
  miss-Scan = record {
    is = behind-IsOpen;
    place = omega (
      arith,
      s.place,
      s.partial,
      length-append before (take index delimiter ++ byte ∷ []),
      length-append (take index delimiter) (byte ∷ []),
      length-take index delimiter,
    );
    partial = omega (arith, s.partial);
    read =
        read_on
        ∙ ap (λ l. l ++ drop (reader.cursor + 1) reader.buffer)
            (sym (append-nil (before ++ (take index delimiter ++ byte ∷ []))));
    all = s.all;
  }

  hit-Splits :
      byte ≡ get_or delimiter index 0
      → length delimiter ≤ index + 1
      → Splits delimiter whole (
        result_data (
            take
              (reader.cursor + 1 - start_cursor - length delimiter)
              (drop start_cursor reader.buffer)),
        behind,
      )
  hit-Splits e last =
      let found : drop start_cursor reader.buffer
          ≡ before ++ delimiter ++ drop (reader.cursor + 1) reader.buffer =
        read_on
        ∙ ap (λ l. before ++ l ++ drop (reader.cursor + 1) reader.buffer)
            (matched e ∙ take-all (index + 1) delimiter last) in
      let size : reader.cursor + 1 - start_cursor - length delimiter ≡ length before =
        omega (arith, s.place, s.partial) in
      let content : take (reader.cursor + 1 - start_cursor - length delimiter)
            (drop start_cursor reader.buffer)
          ≡ before =
        ap (λ n. take n (drop start_cursor reader.buffer)) size
        ∙ ap (take (length before))
            (found ∙ append_assoc before delimiter (drop (reader.cursor + 1) reader.buffer))
        ∙ take-length_append before (delimiter ++ drop (reader.cursor + 1) reader.buffer) in
      (
        s.all
            ∙ ap (λ l. l ++ pending reader.descriptor) found
            ∙ append_assoc (before ++ delimiter) (drop (reader.cursor + 1) reader.buffer)
                (pending reader.descriptor)
            ∙ ap (λ l. l ++ delimiter ++ to_come behind) (sym content),
        behind-IsOpen,
      )

-- A round at a byte, and the rounds behind it.
step-Splits :
    (delimiter whole : Bytes) (start_cursor index : ℕ) (before : Bytes) (reader : BufferedReader)
    (s : Scan delimiter whole start_cursor index before reader)
    (inside : reader.cursor < length reader.buffer) (rounds : ℕ → BufferedReader → Option Read)
    → ((i : ℕ) (b : Bytes)
        → Scan delimiter whole start_cursor i b
            (behind delimiter whole start_cursor index before reader s inside)
        → (r : Read) × (rounds i (record reader { cursor = reader.cursor + 1 }) ≡ some r)
          × Splits delimiter whole r)
    → (r : Read) × (proceed delimiter start_cursor index reader (
          rounds
            (if get_or reader.buffer reader.cursor 0 == get_or delimiter index 0
              then index + 1
              else 0)
            (record reader { cursor = reader.cursor + 1 }))
        ≡ some r)
      × Splits delimiter whole r
step-Splits delimiter whole start_cursor index before reader s inside rounds again =
    let opened : is_open reader.state ≡ true = ap is_open s.is.state in
    elim (Bool-cases (get_or reader.buffer reader.cursor 0 == get_or delimiter index 0)) [
      | inr miss ↦
          rw (opened, miss)
            (again 0 _ (miss-Scan delimiter whole start_cursor index before reader s inside))
      | inl hit ↦
          let same =
            (==_iff (get_or reader.buffer reader.cursor 0) (get_or delimiter index 0)).0 hit in
          elim (Bool-cases (leb (length delimiter) (index + 1))) [
            | inl last ↦
                rw (opened, hit, last)
                  (
                    _,
                    refl,
                    hit-Splits delimiter whole start_cursor index before reader s inside same
                        (leb→le _ _ last),
                  )
            | inr more ↦
                rw (opened, hit, more)
                  (again (index + 1) before (
                    hit-Scan delimiter whole start_cursor index before reader s inside same
                      (leb_false→lt _ _ more)))
          ]
    ]

failed-Splits :
    (delimiter whole : Bytes) (s : StreamState) (reader : BufferedReader)
    → is_open reader.state ≡ false
    → Splits delimiter whole (failed s "Failed to get more data in read until delimiter", reader)
failed-Splits delimiter whole stream_open reader h = h
failed-Splits delimiter whole closed_state reader h = h
failed-Splits delimiter whole error_state reader h = h

-- Each round takes a byte of what is to come.
fewer :
    (reader after : BufferedReader) (got : Bytes)
    → IsOpen reader
    → Filled reader after got
    → after.cursor < length after.buffer
    → length (to_come (record after { cursor = after.cursor + 1 })) < length (to_come reader)
fewer reader after got is f inside =
    let same = ap length (Filled-to_come reader after got is f) in
    omega (
      arith,
      same,
      length-append (drop after.cursor after.buffer) (pending after.descriptor),
      length-append (drop (after.cursor + 1) after.buffer) (pending after.descriptor),
      length-drop after.cursor after.buffer,
      length-drop (after.cursor + 1) after.buffer,
    )

loop-Splits :
    (fuel : ℕ) (delimiter whole : Bytes) (start_cursor index : ℕ) (before : Bytes)
    (reader : BufferedReader)
    → length (to_come reader) < fuel
    → Scan delimiter whole start_cursor index before reader
    → (r : Read) × (until_delimiter fuel delimiter start_cursor index reader ≡ some r)
      × Splits delimiter whole r
loop-Splits zero delimiter whole start_cursor index before reader enough s = absurd (omega arith)
loop-Splits (suc fuel) delimiter whole start_cursor index before reader enough s =
    let (r, runs, splits) : (r : Read) × (proceed delimiter start_cursor index (refill reader) (
            until_delimiter fuel delimiter start_cursor
              (if get_or (refill reader).buffer (refill reader).cursor 0 == get_or delimiter index 0
                then index + 1
                else 0)
              (record (refill reader) { cursor = (refill reader).cursor + 1 }))
          ≡ some r)
        × Splits delimiter whole r =
      elim (refill-Refilled reader s.is) [
        | inl (got, f, inside) ↦
            step-Splits delimiter whole start_cursor index before (refill reader)
              (Filled-Scan delimiter whole start_cursor index before reader (refill reader) got f s)
              inside (until_delimiter fuel delimiter start_cursor)
              λ i b s'.
                loop-Splits fuel delimiter whole start_cursor i b _
                  (omega (arith, fewer reader (refill reader) got s.is f inside)) s'
        | inr shut ↦
            rw shut
              (_, refl, failed-Splits delimiter whole (refill reader).state (refill reader) shut)
      ] in
    (r, round-proceed fuel delimiter start_cursor index reader ∙ runs, splits)

-- Reading up to a delimiter that is not empty ends. Where it finds one, what was to come is the
-- content, the delimiter, and what is still to come of the reader, which is open; otherwise the
-- stream has ended.
pub until_delimiter-Splits :
    (reader : BufferedReader) (delimiter : Bytes)
    → IsOpen reader
    → 0 < length delimiter
    → (r : Read) × (buffered_reader_get_until_delimiter_impl reader delimiter ≡ some r)
      × Splits delimiter (to_come reader) r
unfolding buffered_reader_get_until_delimiter_impl
until_delimiter-Splits reader delimiter is some_byte =
    rw (buffered_reader_get_until_delimiter_impl, is_safe reader is)
      (loop-Splits _ delimiter (to_come reader) reader.cursor 0 [] reader
        (omega (
          arith,
          length-append (drop reader.cursor reader.buffer) (pending reader.descriptor),
          length-drop reader.cursor reader.buffer,
        ))
        (record { is = is; place = omega arith; partial = some_byte; read = refl; all = refl }))
