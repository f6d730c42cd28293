-- ===== src/BufferedReader/Tests.antt =====
-- Runs of the buffered reader of src/utils/buffered_reader.c.
use my_simple_c_http_server.Prelude.{◌≡◌, refl, [], ◌∷◌, some, arith}
use my_simple_c_http_server.Http2.Parse.Common.{read_amount}
use my_simple_c_http_server.BufferedReader.{
  chunk, BufferedReader, Read, get_buffered_reader, result_eof, closed_state, read_from_descriptor,
  buffered_reader_get_amount, buffered_reader_get_until_end,
  buffered_reader_get_until_delimiter_impl, buffered_reader_invalidate_old_data,
}
use my_simple_c_http_server.BufferedReader.Fill.{end_state, IsOpen}
use my_simple_c_http_server.BufferedReader.Amount.{
  to_come, Agrees, buffered_reader_get_amount-read_amount, invalidate-to_come,
}
use my_simple_c_http_server.BufferedReader.Rest.{Drains, buffered_reader_get_until_end-Drains}
use my_simple_c_http_server.BufferedReader.Delimiter.{until_delimiter-Splits}
use my_simple_c_http_server.BufferedReader.Rounds.{Splits}

-- "a\r", then "\r\nb".
abbrev line : BufferedReader
line = get_buffered_reader (chunk 97 (13 ∷ []) ∷ chunk 13 (10 ∷ 98 ∷ []) ∷ [])

line-IsOpen : IsOpen line
line-IsOpen = record { state = refl; within = omega arith }

buffered_reader_get_amount-read_amount_example :
    (r : Read) × (buffered_reader_get_amount line 3 ≡ some r)
    × Agrees (end_state line.descriptor) (read_amount 3 (to_come line)) r
buffered_reader_get_amount-read_amount_example =
    buffered_reader_get_amount-read_amount line 3 line-IsOpen

invalidate-to_come_example :
    (to_come (buffered_reader_invalidate_old_data line) ≡ to_come line)
    × IsOpen (buffered_reader_invalidate_old_data line)
invalidate-to_come_example = invalidate-to_come line line-IsOpen

buffered_reader_get_until_end-Drains_example :
    (r : Read) × (buffered_reader_get_until_end line ≡ some r)
    × Drains (end_state line.descriptor) (to_come line) r
buffered_reader_get_until_end-Drains_example = buffered_reader_get_until_end-Drains line line-IsOpen

until_delimiter-Splits_example :
    (r : Read) × (buffered_reader_get_until_delimiter_impl line (13 ∷ 10 ∷ []) ≡ some r)
    × Splits (13 ∷ 10 ∷ []) (to_come line) r
until_delimiter-Splits_example =
    until_delimiter-Splits line (13 ∷ 10 ∷ []) line-IsOpen (omega arith)

-- The delimiter "\r\n" is not found behind "a\r", since a byte that does not go on with the delimiter
-- is not compared with its first byte.
delimiter_missed :
    buffered_reader_get_until_delimiter_impl line (13 ∷ 10 ∷ [])
    ≡ some (
      result_eof "Failed to get more data in read until delimiter",
      record {
        descriptor = [];
        state = closed_state;
        cursor = 5;
        buffer = 97 ∷ 13 ∷ 13 ∷ 10 ∷ 98 ∷ [];
      },
    )
unfolding buffered_reader_get_until_delimiter_impl read_from_descriptor
delimiter_missed = refl
