-- ===== src/BufferedReader.antt =====
-- src/utils/buffered_reader.c on a descriptor that is the list of what its reads meet. A buffer is the
-- list of its bytes. A growth of the buffer is granted.
pub mod Fill
pub mod Amount
pub mod Rest
pub mod Rounds
pub mod Delimiter
mod Tests
use my_simple_c_http_server.Prelude.{
  ℕ, zero, suc, ◌+◌, ◌-◌, Bool, true, false, not, ◌&&◌, List, [], ◌∷◌, ◌++◌, Option, none, some,
  ltb, leb, ◌==◌, if◌then◌else◌, Bytes, String, length, get_or, take, drop,
}

-- What a `read` meets: bytes, of which it takes as many as it asked for at most, or an error. Behind
-- the last one is the end of the file.
pub data Arrival : Type 0 where
  chunk : (first : ℕ) → (others : Bytes) → Arrival
  failure : Arrival

pub data ReadResult : Type 0 where
  read_success : Bytes → ReadResult
  read_eof : ReadResult
  read_error : ReadResult

-- What a chunk leaves.
abbrev pub left_over : Bytes → List Arrival → List Arrival
left_over [] arrivals = arrivals
left_over (byte ∷ bytes) arrivals = chunk byte bytes ∷ arrivals

unfoldable pub read_from_descriptor : List Arrival → ℕ → ReadResult × List Arrival
read_from_descriptor [] n_bytes = (read_eof, [])
read_from_descriptor (failure ∷ arrivals) n_bytes = (read_error, arrivals)
read_from_descriptor (chunk first others ∷ arrivals) zero =
    (read_eof, chunk first others ∷ arrivals)
read_from_descriptor (chunk first others ∷ arrivals) (suc n) =
    (read_success (first ∷ take n others), left_over (drop n others) arrivals)

-- The bytes up to the end of the file or an error.
abbrev pub pending : List Arrival → Bytes
pending [] = []
pending (failure ∷ arrivals) = []
pending (chunk first others ∷ arrivals) = first ∷ others ++ pending arrivals

pub data StreamState : Type 0 where
  stream_open closed_state error_state : StreamState

-- `BufferedReaderImpl`, with the cursor and the buffer of `BufferedData`.
pub record BufferedReader : Type 0 where
  pub descriptor : List Arrival
  pub state : StreamState
  pub cursor : ℕ
  pub buffer : Bytes

pub data BufferedReadResult : Type 0 where
  result_data : Bytes → BufferedReadResult
  result_eof : (message : String) → BufferedReadResult
  result_err : (message : String) → BufferedReadResult

abbrev pub get_buffered_reader : List Arrival → BufferedReader
get_buffered_reader descriptor = record {
  descriptor = descriptor;
  state = stream_open;
  cursor = 0;
  buffer = [];
}

abbrev pub is_open : StreamState → Bool
is_open stream_open = true
is_open _ = false

-- `reader->state == StreamStateClosed ? BufferedReadResultTypeEOF : BufferedReadResultTypeErr`
abbrev pub failed : StreamState → String → BufferedReadResult
failed closed_state message = result_eof message
failed _ message = result_err message

abbrev pub set_state : StreamState → BufferedReader → BufferedReader
set_state state reader = record reader { state = state }

unfoldable pub buffered_reader_is_safe_to_read : BufferedReader → Bool × BufferedReader
buffered_reader_is_safe_to_read reader =
    if not (is_open reader.state)
    then (false, reader)
    else if ltb (length reader.buffer) reader.cursor
    then (false, set_state error_state reader)
    else (true, reader)

unfoldable pub more_data : BufferedReader → ReadResult × List Arrival → ℕ × BufferedReader
more_data reader (read_eof, descriptor) =
    (0, record reader { state = closed_state; descriptor = descriptor })
more_data reader (read_error, descriptor) =
    (0, record reader { state = error_state; descriptor = descriptor })
more_data reader (read_success bytes, descriptor) = (
  length bytes,
  record reader { state = stream_open; descriptor = descriptor; buffer = reader.buffer ++ bytes },
)

unfoldable pub buffered_reader_get_more_data_partially : BufferedReader → ℕ → ℕ × BufferedReader
unfolding buffered_reader_is_safe_to_read more_data
buffered_reader_get_more_data_partially reader amount =
    let (safe, reader') = buffered_reader_is_safe_to_read reader in
    if not safe
    then (0, reader')
    else more_data reader' (read_from_descriptor reader'.descriptor amount)

-- The loop; `none` is that the fuel ran out.
unfoldable pub more_data_loop : ℕ → ℕ → BufferedReader → Option BufferedReader
unfolding buffered_reader_get_more_data_partially
more_data_loop zero amount_left reader = none
more_data_loop (suc fuel) amount_left reader =
    let (data_read, reader') = buffered_reader_get_more_data_partially reader amount_left in
    let later = more_data_loop fuel (amount_left - data_read) reader' in
    if not (is_open reader.state)
    then some reader
    else if ltb amount_left data_read
    then some (set_state error_state reader')
    else if data_read == amount_left
    then some reader'
    else later

-- Each round but the last reads a byte.
unfoldable pub buffered_reader_get_more_data_exact : BufferedReader → ℕ → Option BufferedReader
buffered_reader_get_more_data_exact reader amount = more_data_loop (amount + 2) amount reader

unfoldable pub buffered_reader_get_more_data_at_least_some : BufferedReader → ℕ → BufferedReader
unfolding buffered_reader_get_more_data_partially
buffered_reader_get_more_data_at_least_some reader amount =
    let (data_read, reader') = buffered_reader_get_more_data_partially reader amount in
    if ltb data_read 1
    then (if is_open reader'.state then set_state error_state reader' else reader')
    else reader'

unfoldable pub get_available_data_length : BufferedReader → ℕ × BufferedReader
unfolding buffered_reader_is_safe_to_read
get_available_data_length reader =
    let (safe, reader') = buffered_reader_is_safe_to_read reader in
    if not safe then (0, reader') else (length reader'.buffer - reader'.cursor, reader')

unfoldable pub buffered_reader_get_data_until : BufferedReader → ℕ → Option BufferedReader
unfolding get_available_data_length buffered_reader_get_more_data_exact
buffered_reader_get_data_until reader amount =
    let (current_amount, reader') = get_available_data_length reader in
    if leb amount current_amount
    then some reader'
    else buffered_reader_get_more_data_exact reader' (amount - current_amount)

abbrev pub Read : Type 0
Read = BufferedReadResult × BufferedReader

-- The end of `buffered_reader_get_amount`.
unfoldable pub take_amount : ℕ → BufferedReader → Read
unfolding get_available_data_length
take_amount amount reader =
    if not (is_open reader.state)
    then (
      failed reader.state "Failed to get more data in read amount, stream not open anymore",
      reader,
    )
    else (let (size, reader') = get_available_data_length reader in
        if ltb size amount then (result_err "Failed to get more data in get amount", reader') else (
          result_data (take amount (drop reader'.cursor reader'.buffer)),
          record reader' { cursor = reader'.cursor + amount },
        ))

unfoldable pub buffered_reader_get_amount : BufferedReader → ℕ → Option Read
unfolding buffered_reader_is_safe_to_read buffered_reader_get_data_until take_amount
buffered_reader_get_amount reader amount =
    let (safe, reader') = buffered_reader_is_safe_to_read reader in
    if not safe
    then some (failed reader'.state "Failed to get more data in read amount at start", reader')
    else elim (buffered_reader_get_data_until reader' amount) [
      | none ↦ none
      | some reader'' ↦ some (take_amount amount reader'')
    ]

unfoldable pub buffered_reader_invalidate_old_data : BufferedReader → BufferedReader
unfolding buffered_reader_is_safe_to_read
buffered_reader_invalidate_old_data reader =
    let (safe, reader') = buffered_reader_is_safe_to_read reader in
    if not safe
    then reader'
    else record reader' { buffer = drop reader'.cursor reader'.buffer; cursor = 0 }

-- True where the buffer has nothing left.
unfoldable pub buffered_reader_has_more_data : BufferedReader → Bool
buffered_reader_has_more_data reader = elim reader.state [
  | closed_state ↦ true
  | _ ↦ if ltb reader.cursor (length reader.buffer) then false else true
]

-- A round of `buffered_reader_get_until_delimiter_impl` on a byte that is in the buffer, or its end.
unfoldable pub until_delimiter : ℕ → Bytes → ℕ → ℕ → BufferedReader → Option Read
unfolding buffered_reader_get_more_data_at_least_some
until_delimiter zero delimiter start_cursor delimiter_index reader = none
until_delimiter (suc fuel) delimiter start_cursor delimiter_index reader =
    let reader' =
      if leb (length reader.buffer) reader.cursor
      then buffered_reader_get_more_data_at_least_some reader 512
      else reader in
    let matches = get_or reader'.buffer reader'.cursor 0 == get_or delimiter delimiter_index 0 in
    let next = record reader' { cursor = reader'.cursor + 1 } in
    let index = if matches then delimiter_index + 1 else 0 in
    let later = until_delimiter fuel delimiter start_cursor index next in
    if not (is_open reader'.state)
    then some (failed reader'.state "Failed to get more data in read until delimiter", reader')
    else if matches && leb (length delimiter) (delimiter_index + 1)
    then some (
      result_data (
          take (reader'.cursor + 1 - start_cursor - length delimiter)
            (drop start_cursor reader'.buffer)),
      next,
    )
    else later

-- Each round goes on by a byte.
unfoldable pub buffered_reader_get_until_delimiter_impl : BufferedReader → Bytes → Option Read
unfolding buffered_reader_is_safe_to_read until_delimiter
buffered_reader_get_until_delimiter_impl reader delimiter =
    let (safe, reader') = buffered_reader_is_safe_to_read reader in
    if not safe
    then some (failed reader'.state "Failed to get more data in read until delimiter", reader')
    else until_delimiter (length reader'.buffer + length (pending reader'.descriptor) + 2) delimiter
        reader'.cursor 0 reader'

-- The loop of `buffered_reader_get_until_end` and what follows it.
unfoldable pub until_end : ℕ → BufferedReader → Option Read
unfolding buffered_reader_get_more_data_exact
until_end zero reader = none
until_end (suc fuel) reader = elim (buffered_reader_get_more_data_exact reader 512) [
  | none ↦ none
  | some reader' ↦
      let later = until_end fuel reader' in
      elim reader'.state [
        | stream_open ↦ later
        | closed_state ↦ some (
          result_data (drop reader'.cursor reader'.buffer),
          record reader' { cursor = length reader'.buffer; state = closed_state },
        )
        | error_state ↦ some (result_err "Failed to get more data in read until end", reader')
      ]
]

-- Each round reads 512 bytes, or is the last.
unfoldable pub buffered_reader_get_until_end : BufferedReader → Option Read
unfolding buffered_reader_is_safe_to_read until_end
buffered_reader_get_until_end reader =
    let (safe, reader') = buffered_reader_is_safe_to_read reader in
    if not safe
    then elim reader'.state [
      | closed_state ↦ some (result_data [], reader')
      | _ ↦ some (result_err "Failed to get more data in read until end", reader')
    ]
    else until_end (length (pending reader'.descriptor) + 1) reader'
