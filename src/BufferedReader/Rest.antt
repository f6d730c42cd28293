-- ===== src/BufferedReader/Rest.antt =====
-- buffered_reader_get_until_end of src/utils/buffered_reader.c.
use my_simple_c_http_server.Prelude.{
  ℕ, zero, suc, ◌+◌, ◌<◌, ◌≡◌, refl, ◌∙◌, ap, inl, inr, false, Option, some, Bytes, length, drop,
  length-append, arith,
}
use my_simple_c_http_server.BufferedReader.{
  pending, StreamState, stream_open, closed_state, error_state, BufferedReader, result_data,
  result_err, Read, is_open, until_end, buffered_reader_get_until_end,
  buffered_reader_get_more_data_exact,
}
use my_simple_c_http_server.BufferedReader.Fill.{
  end_state, IsOpen, Ended, Filled-IsOpen, is_safe, Fills, exact-Fills, end_not_open,
}
use my_simple_c_http_server.BufferedReader.Amount.{to_come, Filled-to_come, drop-append}

-- The result of a read of the rest: all the bytes, or an error where the stream ends in one.
abbrev pub Drains : StreamState → Bytes → Read → Type 0
Drains error_state bytes (result, after) =
    (result ≡ result_err "Failed to get more data in read until end") × (after.state ≡ error_state)
Drains _ bytes (result, after) =
    (result ≡ result_data bytes)
    × (after.state ≡ closed_state)
    × (after.cursor ≡ length after.buffer)

-- What follows the reads of a round at the end of the stream.
abbrev finish_end : StreamState → BufferedReader → Option Read → Option Read
finish_end state reader later = elim state [
  | stream_open ↦ later
  | closed_state ↦ some (
    result_data (drop reader.cursor reader.buffer),
    record reader { cursor = length reader.buffer; state = closed_state },
  )
  | error_state ↦ some (result_err "Failed to get more data in read until end", reader)
]

round_lem :
    (fuel : ℕ) (reader after : BufferedReader)
    → buffered_reader_get_more_data_exact reader 512 ≡ some after
    → until_end (suc fuel) reader ≡ finish_end after.state after (until_end fuel after)
unfolding until_end
round_lem fuel reader after e = rw (until_end, e) refl

Ended-Drains :
    (reader after : BufferedReader) (later : Option Read) (s : StreamState)
    → IsOpen reader
    → Ended reader after
    → is_open s ≡ false
    → end_state reader.descriptor ≡ s
    → (r : Read) × (finish_end s after later ≡ some r) × Drains s (to_come reader) r
Ended-Drains reader after later stream_open is ended shut e = cc
Ended-Drains reader after later closed_state is ended shut e = (
  _,
  refl,
  (
    ap result_data (
        ap (λ k. drop k after.buffer) ended.cursor
        ∙ ap (drop reader.cursor) ended.buffer
        ∙ drop-append reader.cursor reader.buffer (pending reader.descriptor) is.within),
    refl,
    refl,
  ),
)
Ended-Drains reader after later error_state is ended shut e = (_, refl, (refl, ended.state ∙ e))

end-Drains :
    (fuel : ℕ) (reader : BufferedReader)
    → length (pending reader.descriptor) < fuel
    → IsOpen reader
    → (r : Read) × (until_end fuel reader ≡ some r)
      × Drains (end_state reader.descriptor) (to_come reader) r
end-Drains zero reader enough is = absurd (omega arith)
end-Drains (suc fuel) reader enough is =
    let (after, runs, fills) = exact-Fills reader 511 is in
    let (r, ends, drains) = step after fills (λ below is'. end-Drains fuel after below is') in
    (r, round_lem fuel reader after runs ∙ ends, drains)
  where
    step :
        (after : BufferedReader)
        → Fills reader 512 after
        → (length (pending after.descriptor) < fuel
            → IsOpen after
            → (r : Read) × (until_end fuel after ≡ some r)
              × Drains (end_state after.descriptor) (to_come after) r)
        → (r : Read) × (finish_end after.state after (until_end fuel after) ≡ some r)
          × Drains (end_state reader.descriptor) (to_come reader) r
    step after (inl (got, size, f)) again =
        let (r, ends, drains) =
          again
            (omega (arith, ap length f.pending_left, length-append got (pending after.descriptor)))
            (Filled-IsOpen reader after got is f) in
        (
          r,
          ap (λ s. finish_end s after (until_end fuel after)) f.state ∙ ends,
          rw (f.same_end, Filled-to_come reader after got is f) at drains,
        )
    step after (inr (short, ended)) again =
        let (r, ends, drains) =
          Ended-Drains reader after (until_end fuel after) (end_state reader.descriptor) is ended
            (end_not_open reader.descriptor) refl in
        (r, ap (λ s. finish_end s after (until_end fuel after)) ended.state ∙ ends, drains)

-- Reading the rest of an open stream ends: with all the bytes that are to come, and the reader closed;
-- or with an error, where the stream ends in one.
pub buffered_reader_get_until_end-Drains :
    (reader : BufferedReader)
    → IsOpen reader
    → (r : Read) × (buffered_reader_get_until_end reader ≡ some r)
      × Drains (end_state reader.descriptor) (to_come reader) r
unfolding buffered_reader_get_until_end
buffered_reader_get_until_end-Drains reader is =
    rw (buffered_reader_get_until_end, is_safe reader is)
      (end-Drains (length (pending reader.descriptor) + 1) reader (omega arith) is)
