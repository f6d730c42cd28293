-- ===== src/NumberParsing/Tests.antt =====
-- parse_u64 and parse_i64 at concrete strings.
use my_simple_c_http_server.Prelude.{
  ℕ, ◌<◌, ◌%◌, ◌^◌, ◌≡◌, ◌≢◌, refl, [], ◌∷◌, ◌++◌, ◌∙◌, ap, ltb, ◌==◌, if◌then◌else◌, some, Bytes,
  ok, error, fault, arith,
}
use my_simple_c_http_server.NumberParsing.{
  parse_u64, add_digit, add_digits, parse_i64, pos, negate, no_success,
}
use my_simple_c_http_server.NumberParsing.Value.{AreDigits, decimal_value, value_from}
use my_simple_c_http_server.NumberParsing.Laws.{
  parse_u64_exact, parse_u64_accepted, parse_u64_overflow, parse_i64_minus, parse_i64_digits,
}

abbrev forty_two : Bytes
forty_two = b'4' ∷ b'2' ∷ []

forty_two_digits : AreDigits forty_two
forty_two_digits = omega arith

forty_two_value : decimal_value forty_two ≡ 42
unfolding value_from
forty_two_value = refl

parse_u64_exact_example : parse_u64 forty_two ≡ some (decimal_value forty_two)
parse_u64_exact_example =
    parse_u64_exact b'4' (b'2' ∷ []) forty_two_digits (omega (arith, forty_two_value))

accepts : parse_u64 forty_two ≡ some 42
accepts =
    parse_u64_exact b'4' (b'2' ∷ []) forty_two_digits (omega (arith, forty_two_value))
    ∙ ap some forty_two_value

parse_u64_accepted_example :
    (forty_two ≢ []) × AreDigits forty_two × (42 ≡ decimal_value forty_two % 2 ^ 64)
parse_u64_accepted_example = parse_u64_accepted forty_two 42 accepts

-- 21 * 10 ^ 18, which is above 2 ^ 64 and wraps to no less than 21 * 10 ^ 17.
abbrev others : Bytes
others =
    b'1' ∷ b'0' ∷ b'0' ∷ b'0' ∷ b'0' ∷ b'0' ∷ b'0' ∷ b'0' ∷ b'0' ∷ b'0' ∷ b'0' ∷ b'0' ∷ b'0' ∷ b'0'
    ∷ b'0' ∷ b'0' ∷ b'0' ∷ b'0' ∷ []

large_value : decimal_value (b'2' ∷ others) ≡ 2100000000000000000
unfolding value_from
large_value = refl

over_value : decimal_value (b'2' ∷ (others ++ b'0' ∷ [])) ≡ 21000000000000000000
unfolding value_from
over_value = refl

parse_u64_overflow_example :
    (v : ℕ) × (parse_u64 (b'2' ∷ (others ++ b'0' ∷ [])) ≡ some v)
    × (v < decimal_value (b'2' ∷ (others ++ b'0' ∷ [])))
parse_u64_overflow_example =
    parse_u64_overflow b'2' others b'0' (omega arith) (omega arith) (omega (arith, large_value))
      (omega (arith, over_value)) (omega (arith, large_value, over_value))

overflow_run : parse_u64 (b'2' ∷ (others ++ b'0' ∷ [])) ≡ some 2553255926290448384
unfolding parse_u64 add_digits add_digit
overflow_run = refl

parse_i64_minus_example : parse_i64 (b'-' ∷ forty_two) ≡ (
    if ltb (decimal_value forty_two) (2 ^ 63)
    then ok (negate (decimal_value forty_two))
    else if decimal_value forty_two == 2 ^ 63
    then fault
    else error no_success)
parse_i64_minus_example =
    parse_i64_minus b'4' (b'2' ∷ []) forty_two_digits (omega (arith, forty_two_value))

parse_i64_digits_example : parse_i64 forty_two ≡ (
    if ltb (decimal_value forty_two) (2 ^ 63)
    then ok (pos (decimal_value forty_two))
    else error no_success)
parse_i64_digits_example =
    parse_i64_digits b'4' (b'2' ∷ []) forty_two_digits (omega (arith, forty_two_value))
