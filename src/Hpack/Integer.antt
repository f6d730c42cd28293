-- ===== src/Hpack/Integer.antt =====
-- Variable-length integers: decode_hpack_variable_integer and encode_hpack_variable_integer of
-- src/http/hpack.c. The bytes from `data + *pos` up to `data + size` are a list.
pub mod RoundTrip
pub mod Encoding
pub mod Decode
use my_simple_c_http_server.Prelude.{
  ℕ, zero, suc, ◌+◌, ◌-◌, ◌*◌, ◌/◌, ◌%◌, ◌^◌, ◌&&◌, List, [], ◌∷◌, Option, none, some, bit_and,
  bit_or, ltb, leb, ◌==◌, if◌then◌else◌, Bytes, u64, Outcome, ok, error, fault, ◌>>=◌,
}
use mathlib.Core.Option

pub data IntegerError : Type 0 where
  not_enough_bytes too_big : IntegerError

-- `v << s` at type `int`, for v ≥ 0: defined only if s < 32 and the result is an `int`.
pub shift_int : ℕ → ℕ → Outcome IntegerError ℕ
shift_int v s = if ltb s 32 && ltb (v * 2 ^ s) (2 ^ 31) then ok (v * 2 ^ s) else fault

-- The `while(true)` loop; `sizeof(HpackVariableInteger) - 1` is 7, and `amount` is a `uint8_t`.
pub decode_loop : Bytes → ℕ → ℕ → Outcome IntegerError (ℕ × Bytes)
unfolding shift_int
decode_loop [] result amount = error not_enough_bytes
decode_loop (byte ∷ rest) result amount =
    if leb 7 (amount / 8)
    then error too_big
    else shift_int (bit_and byte 0x7f) amount >>= λ shifted.
        let result' = u64 (result + shifted) in
        let more = decode_loop rest result' ((amount + 7) % 256) in
        if bit_and byte 0x80 == 0 then ok (result', rest) else more

-- `(1 << prefix_bits) - 1` as a `uint8_t`
abbrev pub mask_of : ℕ → ℕ
mask_of prefix_bits = (2 ^ prefix_bits - 1) % 256

-- The first byte is read with no test of `*pos`. The result comes with what is left to read.
pub decode_hpack_variable_integer : ℕ → Bytes → Outcome IntegerError (ℕ × Bytes)
decode_hpack_variable_integer prefix_bits [] = fault
decode_hpack_variable_integer prefix_bits (byte ∷ rest) =
    let mask = mask_of prefix_bits in
    let first_byte = bit_and byte mask in
    if ltb first_byte mask then ok (first_byte, rest) else decode_loop rest first_byte 0

-- `MAX_HPACK_VARIABLE_INTEGER_SIZE`, for eight bytes: (8 * 8 + 7) / 7.
abbrev pub max_hpack_variable_integer_size : ℕ
max_hpack_variable_integer_size = (8 * 8 + 7) / 7

-- The `while(true)` loop. The number is how many more values of `idx` pass the test
-- `idx > MAX_HPACK_VARIABLE_INTEGER_SIZE`; `none` is the result -1.
pub encode_loop : ℕ → ℕ → Option Bytes
encode_loop zero value = none
encode_loop (suc rounds) value =
    let more =
      Option.map (λ bytes. (0x80 + bit_and value 0x7f) ∷ bytes)
        (encode_loop rounds (value / 0x80)) in
    if leb 0x80 value then more else some (value ∷ [])

-- `first` is the byte that stands in `out_bytes[0]` before the call. The result is the bytes
-- written from `out_bytes[0]` on, whose number is the C function's result, or `none` for -1.
pub encode_hpack_variable_integer : ℕ → ℕ → ℕ → Option Bytes
encode_hpack_variable_integer first input prefix_bits =
    let mask = mask_of prefix_bits in
    let more =
      Option.map (λ bytes. bit_or first mask ∷ bytes)
        (encode_loop max_hpack_variable_integer_size (input - mask)) in
    if ltb input mask then some (bit_or first (bit_and input mask) ∷ []) else more
