-- ===== src/BufferedReader/Rounds.antt =====
-- A round of buffered_reader_get_until_delimiter_impl of src/utils/buffered_reader.c.
use my_simple_c_http_server.Prelude.{
  ℕ, zero, suc, ◌+◌, ◌-◌, ◌≤◌, ◌<◌, ◌≡◌, refl, sym, ◌∙◌, ap, ◌⊎◌, inl, inr, false, not, ◌&&◌, [],
  ◌∷◌, ◌++◌, append_assoc, append-nil, Option, some, ltb, leb, ◌==◌, Bool-cases, leb_false→lt,
  ltb-false, if◌then◌else◌, get_or, Bytes, length, take, drop, length-append, arith,
}
use my_simple_c_http_server.BufferedReader.{
  pending, error_state, BufferedReader, result_data, failed, Read, is_open, set_state,
  until_delimiter, buffered_reader_get_more_data_at_least_some,
}
use my_simple_c_http_server.BufferedReader.Fill.{
  IsOpen, Filled, Filled-IsOpen, Gets, partially-Gets, end_not_open,
}
use my_simple_c_http_server.BufferedReader.Amount.{to_come, drop-append}

-- The content in front of the first delimiter that is found, and what is left behind it; or the stream
-- has ended.
abbrev pub Splits : Bytes → Bytes → Read → Type 0
Splits delimiter whole (result_data content, after) =
    (whole ≡ content ++ delimiter ++ to_come after) × IsOpen after
Splits delimiter whole (_, after) = is_open after.state ≡ false

pub drop-get_or : (n : ℕ) (xs : Bytes) → n < length xs → drop n xs ≡ get_or xs n 0 ∷ drop (n + 1) xs
drop-get_or zero [] h = absurd (omega arith)
drop-get_or zero (x ∷ xs) h = refl
drop-get_or (suc n) [] h = absurd (omega arith)
drop-get_or (suc n) (x ∷ xs) h =
    let e : suc n + 1 ≡ suc (n + 1) = omega arith in rw e (drop-get_or n xs (omega arith))

pub take-get_or :
    (n : ℕ) (xs : Bytes) → n < length xs → take (n + 1) xs ≡ take n xs ++ get_or xs n 0 ∷ []
take-get_or zero [] h = absurd (omega arith)
take-get_or zero (x ∷ xs) h = refl
take-get_or (suc n) [] h = absurd (omega arith)
take-get_or (suc n) (x ∷ xs) h =
    let e : suc n + 1 ≡ suc (n + 1) = omega arith in
    rw e (ap (λ l. x ∷ l) (take-get_or n xs (omega arith)))

pub take-all : (n : ℕ) (xs : Bytes) → length xs ≤ n → take n xs ≡ xs
take-all zero [] h = refl
take-all zero (x ∷ xs) h = absurd (omega arith)
take-all (suc n) [] h = refl
take-all (suc n) (x ∷ xs) h = ap (λ l. x ∷ l) (take-all n xs (omega arith))

abbrev pub refill : BufferedReader → BufferedReader
refill reader =
    if leb (length reader.buffer) reader.cursor
    then buffered_reader_get_more_data_at_least_some reader 512
    else reader

-- There is a byte at the cursor, or the stream has ended.
abbrev Refilled : BufferedReader → BufferedReader → Type 0
Refilled reader after =
    ((got : Bytes) × Filled reader after got × (after.cursor < length after.buffer))
    ⊎ (is_open after.state ≡ false)

some-Refilled :
    (reader : BufferedReader) (p : ℕ × BufferedReader)
    → IsOpen reader
    → Gets reader 512 p
    → Refilled reader
        (if ltb p.0 1 then (if is_open p.1.state then set_state error_state p.1 else p.1) else p.1)
some-Refilled reader (n, next) is (inl (got, e, some_read, most, f)) =
    rw (ltb-false n 1 some_read) (
      inl (
        got,
        f,
        omega (arith, is.within, f.cursor, ap length f.buffer, length-append reader.buffer got),
      ))
some-Refilled reader (n, next) is (inr (e, nothing, ended)) =
    let shut : is_open next.state ≡ false =
      ap is_open ended.state ∙ end_not_open reader.descriptor in
    rw e (rw shut (inr shut))

pub refill-Refilled : (reader : BufferedReader) → IsOpen reader → Refilled reader (refill reader)
unfolding buffered_reader_get_more_data_at_least_some
refill-Refilled reader is = elim (Bool-cases (leb (length reader.buffer) reader.cursor)) [
  | inl e ↦ rw e (some-Refilled reader _ is (partially-Gets reader 511 is))
  | inr e ↦ rw e (
      inl (
        [],
        record {
          state = is.state;
          cursor = refl;
          buffer = sym (append-nil reader.buffer);
          pending_left = refl;
          same_end = refl;
        },
        leb_false→lt _ _ e,
      ))
]

-- A round that starts behind `before` and the first `index` bytes of the delimiter.
pub record Scan (delimiter whole : Bytes) (start_cursor index : ℕ) (before : Bytes)
    (reader : BufferedReader) : Type 0 where
  pub is : IsOpen reader
  pub place : start_cursor + length before + index ≡ reader.cursor
  pub partial : index < length delimiter
  pub read :
      drop start_cursor reader.buffer
      ≡ before ++ take index delimiter ++ drop reader.cursor reader.buffer
  pub all : whole ≡ drop start_cursor reader.buffer ++ pending reader.descriptor

-- What is left of a round where there is a byte.
abbrev pub proceed : Bytes → ℕ → ℕ → BufferedReader → Option Read → Option Read
proceed delimiter start_cursor index reader later =
    let matches = get_or reader.buffer reader.cursor 0 == get_or delimiter index 0 in
    if not (is_open reader.state)
    then some (failed reader.state "Failed to get more data in read until delimiter", reader)
    else if matches && leb (length delimiter) (index + 1)
    then some (
      result_data (
          take (reader.cursor + 1 - start_cursor - length delimiter)
            (drop start_cursor reader.buffer)),
      record reader { cursor = reader.cursor + 1 },
    )
    else later

pub round-proceed :
    (fuel : ℕ) (delimiter : Bytes) (start_cursor index : ℕ) (reader : BufferedReader)
    → until_delimiter (suc fuel) delimiter start_cursor index reader
      ≡ proceed delimiter start_cursor index (refill reader) (
          until_delimiter fuel delimiter start_cursor
            (if get_or (refill reader).buffer (refill reader).cursor 0 == get_or delimiter index 0
              then index + 1
              else 0)
            (record (refill reader) { cursor = (refill reader).cursor + 1 }))
unfolding until_delimiter
round-proceed fuel delimiter start_cursor index reader = refl

pub Filled-Scan :
    (delimiter whole : Bytes) (start_cursor index : ℕ) (before : Bytes)
    (reader after : BufferedReader) (got : Bytes)
    → Filled reader after got
    → Scan delimiter whole start_cursor index before reader
    → Scan delimiter whole start_cursor index before after
Filled-Scan delimiter whole start_cursor index before reader after got f s =
    let low : start_cursor ≤ length reader.buffer = omega (arith, s.place, s.is.within) in
    let here : drop start_cursor after.buffer ≡ drop start_cursor reader.buffer ++ got =
      ap (drop start_cursor) f.buffer ∙ drop-append start_cursor reader.buffer got low in
    let there : drop after.cursor after.buffer ≡ drop reader.cursor reader.buffer ++ got =
      ap (λ k. drop k after.buffer) f.cursor
      ∙ ap (drop reader.cursor) f.buffer
      ∙ drop-append reader.cursor reader.buffer got s.is.within in
    record {
      is = Filled-IsOpen reader after got s.is f;
      place = s.place ∙ sym f.cursor;
      partial = s.partial;
      read =
          here
          ∙ ap (λ l. l ++ got) s.read
          ∙ append_assoc (before ++ take index delimiter) (drop reader.cursor reader.buffer) got
          ∙ ap (λ l. before ++ take index delimiter ++ l) (sym there);
      all =
          s.all
          ∙ ap (λ l. drop start_cursor reader.buffer ++ l) f.pending_left
          ∙ sym (append_assoc (drop start_cursor reader.buffer) got (pending after.descriptor))
          ∙ ap (λ l. l ++ pending after.descriptor) (sym here);
    }
