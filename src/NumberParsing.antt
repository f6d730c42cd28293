-- ===== src/NumberParsing.antt =====
-- parse_u64 and parse_i64 of src/utils/number_parsing.c. A view is the list of its bytes.
pub mod Value
pub mod Laws
mod Tests
use my_simple_c_http_server.Prelude.{
  ℕ, zero, suc, ◌+◌, ◌-◌, ◌*◌, ◌%◌, ◌^◌, Bool, true, false, ◌||◌, List, [], ◌∷◌, Option, none, some,
  ltb, leb, ◌==◌, if◌then◌else◌, Bytes, u64, Outcome, ok, error, fault, stuck, ◌>>=◌,
}

-- `*success = false`
pub data ParseError : Type 0 where
  no_success : ParseError

-- An `int64_t`: `pos n` is n, and `negsuc n` is -(n + 1).
pub data ℤ : Type 0 where
  pos : ℕ → ℤ
  negsuc : ℕ → ℤ

-- `-n`
abbrev pub negate : ℕ → ℤ
negate zero = pos 0
negate (suc n) = negsuc n

abbrev pub int64_max : ℕ
int64_max = 2 ^ 63 - 1

-- One round of the loop that both functions have: the result so far with one more digit.
pub add_digit : ℕ → ℕ → Option ℕ
add_digit old_result c =
    let result = u64 (u64 (old_result * 10) + (c - b'0')) in
    if ltb c b'0' || ltb b'9' c then none else if ltb result old_result then none else some result

pub add_digits : ℕ → Bytes → Option ℕ
add_digits result [] = some result
add_digits result (c ∷ cs) = elim (add_digit result c) [
  | none ↦ none
  | some result' ↦ add_digits result' cs
]

pub parse_u64 : Bytes → Option ℕ
parse_u64 [] = none
parse_u64 (c ∷ cs) = add_digits 0 (c ∷ cs)

-- The tests on the absolute value. `-((int64_t)result_temp)` leaves `int64_t` at 2 ^ 63, which the
-- test lets pass.
pub signed_of : Bool → ℕ → Outcome ParseError ℤ
signed_of true result_temp =
    if ltb (int64_max + 1) result_temp
    then error no_success
    else if result_temp == int64_max + 1
    then fault
    else ok (negate result_temp)
signed_of false result_temp =
    if ltb int64_max result_temp then error no_success else ok (pos result_temp)

-- The digits behind the sign.
pub parse_magnitude : Bool → Bytes → Outcome ParseError ℤ
parse_magnitude has_sign [] = error no_success
parse_magnitude has_sign (c ∷ cs) = elim (add_digits 0 (c ∷ cs)) [
  | none ↦ error no_success
  | some result_temp ↦ signed_of has_sign result_temp
]

pub parse_i64 : Bytes → Outcome ParseError ℤ
parse_i64 [] = error no_success
parse_i64 (c ∷ cs) =
    if c == b'-'
    then parse_magnitude true cs
    else if c == b'+'
    then parse_magnitude false cs
    else parse_magnitude false (c ∷ cs)
