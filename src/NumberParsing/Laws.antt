-- ===== src/NumberParsing/Laws.antt =====
-- What parse_u64 and parse_i64 accept, and with which value.
use my_simple_c_http_server.Prelude.{
  ℕ, ◌+◌, ◌-◌, ◌*◌, ◌%◌, ◌^◌, ◌≤◌, ◌<◌, ◌≡◌, ◌≢◌, inl, inr, refl, ◌∙◌, sym, Bool, true, false, [],
  ◌∷◌, ◌++◌, none, some, ltb, ◌==◌, if◌then◌else◌, Bytes, ok, error, fault, arith, Option-cases,
}
use my_simple_c_http_server.NumberParsing.{
  add_digit, add_digits, parse_u64, parse_i64, parse_magnitude, signed_of, no_success, pos, negate,
}
use my_simple_c_http_server.NumberParsing.Value.{
  IsDigit, AreDigits, value_from, decimal_value, le-value_from, value_from-append, value_from-mod,
}

-- One round of the loop.
add_digits-some :
    (n c m : ℕ) (cs : Bytes) → add_digit n c ≡ some m → add_digits n (c ∷ cs) ≡ add_digits m cs
unfolding add_digits
add_digits-some n c m cs e = rw (e, add_digits)

add_digits-none : (n c : ℕ) (cs : Bytes) → add_digit n c ≡ none → add_digits n (c ∷ cs) ≡ none
unfolding add_digits
add_digits-none n c cs e = rw (e, add_digits)

-- A digit that keeps the number below 2 ^ 64 is added.
add_digit_exact :
    (n c : ℕ)
    → IsDigit c
    → n * 10 + (c - b'0') < 2 ^ 64
    → add_digit n c ≡ some (n * 10 + (c - b'0'))
unfolding add_digit
add_digit_exact n c h fits = ground arith

add_digits_exact :
    (n : ℕ) (cs : Bytes)
    → AreDigits cs
    → value_from n cs < 2 ^ 64
    → add_digits n cs ≡ some (value_from n cs)
unfolding add_digits value_from
add_digits_exact n [] ds fits = refl
add_digits_exact n (c ∷ cs) (d, ds) fits =
    add_digits-some n c (n * 10 + (c - b'0')) cs
      (add_digit_exact n c d (omega (arith, le-value_from (n * 10 + (c - b'0')) cs)))
    ∙ add_digits_exact (n * 10 + (c - b'0')) cs ds fits

add_digit_accepted :
    (n c v : ℕ) → add_digit n c ≡ some v → IsDigit c × (v ≡ (n * 10 + (c - b'0')) % 2 ^ 64)
unfolding add_digit
add_digit_accepted n c v e = ground arith

-- Only digits are accepted, and the result is right modulo 2 ^ 64.
add_digits_accepted :
    (n : ℕ) (cs : Bytes) (v : ℕ)
    → n < 2 ^ 64
    → add_digits n cs ≡ some v
    → AreDigits cs × (v ≡ value_from n cs % 2 ^ 64)
unfolding value_from
add_digits_accepted n [] v h e = (tt, unfold add_digits in ground arith)
add_digits_accepted n (c ∷ cs) v h e = elim (Option-cases (add_digit n c)) [
  | inl refused ↦ cc (add_digits-none n c cs refused)
  | inr (m, added) ↦
      let (digit, is_m) = add_digit_accepted n c m added in
      let (digits, is_v) =
        add_digits_accepted m cs v (omega arith) (sym (add_digits-some n c m cs added) ∙ e) in
      ((digit, digits), is_v ∙ value_from-mod m (n * 10 + (c - b'0')) cs (omega arith))
]

-- parse_u64 returns the value of every string of digits that is below 2 ^ 64.
pub parse_u64_exact :
    (c : ℕ) (cs : Bytes)
    → AreDigits (c ∷ cs)
    → decimal_value (c ∷ cs) < 2 ^ 64
    → parse_u64 (c ∷ cs) ≡ some (decimal_value (c ∷ cs))
unfolding parse_u64
parse_u64_exact c cs ds fits = add_digits_exact 0 (c ∷ cs) ds fits

-- What parse_u64 accepts is a string of digits that is not empty, and its result is the value
-- modulo 2 ^ 64.
pub parse_u64_accepted :
    (cs : Bytes) (v : ℕ)
    → parse_u64 cs ≡ some v
    → (cs ≢ []) × AreDigits cs × (v ≡ decimal_value cs % 2 ^ 64)
unfolding parse_u64
parse_u64_accepted [] v e = cc
parse_u64_accepted (c ∷ cs) v e =
    let (digits, is_v) = add_digits_accepted 0 (c ∷ cs) v (omega arith) e in
    (λ no. cc, digits, is_v)

some_n : (n m : ℕ) → some n ≡ some m → n ≡ m
some_n n m e = cc

add_digits-append :
    (n : ℕ) (cs : Bytes) (d m : ℕ)
    → add_digits n cs ≡ some m
    → add_digits n (cs ++ d ∷ []) ≡ add_digits m (d ∷ [])
add_digits-append n [] d m e = rw (some_n n m (unfold add_digits in e))
add_digits-append n (c ∷ cs) d m e = elim (Option-cases (add_digit n c)) [
  | inl refused ↦ cc (add_digits-none n c cs refused)
  | inr (k, added) ↦
      add_digits-some n c k (cs ++ d ∷ []) added
      ∙ add_digits-append k cs d m (sym (add_digits-some n c k cs added) ∙ e)
]

wraps :
    (x d : ℕ)
    → IsDigit d
    → x ≤ (x * 10 + (d - b'0')) % 2 ^ 64
    → add_digits x (d ∷ []) ≡ some ((x * 10 + (d - b'0')) % 2 ^ 64)
unfolding add_digits add_digit
wraps x d h le = ground arith

-- The overflow test of parse_u64 compares the wrapped number with the one before: digits that write
-- 2 ^ 64 or more are accepted, with a wrong value, whenever the last digit wraps to no less than the
-- number that the digits before it write.
pub parse_u64_overflow :
    (c : ℕ) (cs : Bytes) (d : ℕ)
    → AreDigits (c ∷ cs)
    → IsDigit d
    → decimal_value (c ∷ cs) < 2 ^ 64
    → 2 ^ 64 ≤ decimal_value (c ∷ (cs ++ d ∷ []))
    → decimal_value (c ∷ cs) ≤ decimal_value (c ∷ (cs ++ d ∷ [])) % 2 ^ 64
    → (v : ℕ) × (parse_u64 (c ∷ (cs ++ d ∷ [])) ≡ some v) × (v < decimal_value (c ∷ (cs ++ d ∷ [])))
unfolding parse_u64
parse_u64_overflow c cs d ds hd fits over le =
    let last : decimal_value (c ∷ (cs ++ d ∷ [])) ≡ decimal_value (c ∷ cs) * 10 + (d - b'0') =
      value_from-append 0 (c ∷ cs) d in
    (
      (decimal_value (c ∷ cs) * 10 + (d - b'0')) % 2 ^ 64,
      add_digits-append 0 (c ∷ cs) d (decimal_value (c ∷ cs)) (add_digits_exact 0 (c ∷ cs) ds fits)
          ∙ wraps (decimal_value (c ∷ cs)) d hd (omega (arith, last)),
      omega (arith, last),
    )

magnitude_exact :
    (has_sign : Bool) (c : ℕ) (cs : Bytes)
    → AreDigits (c ∷ cs)
    → decimal_value (c ∷ cs) < 2 ^ 64
    → parse_magnitude has_sign (c ∷ cs) ≡ signed_of has_sign (decimal_value (c ∷ cs))
unfolding parse_magnitude
magnitude_exact has_sign c cs ds fits = rw (add_digits_exact 0 (c ∷ cs) ds fits, parse_magnitude)

no_sign : (c : ℕ) (cs : Bytes) → IsDigit c → parse_i64 (c ∷ cs) ≡ parse_magnitude false (c ∷ cs)
unfolding parse_i64
no_sign c cs d = ground arith

minus_sign : (cs : Bytes) → parse_i64 (b'-' ∷ cs) ≡ parse_magnitude true cs
unfolding parse_i64
minus_sign cs = refl

-- parse_i64 on digits behind the sign `-`, by the number `n` that they write, for n below 2 ^ 64: up
-- to 2 ^ 63 - 1 it returns -n, and above 2 ^ 63 it fails. At n = 2 ^ 63, whose negative is the least
-- `int64_t`, its negation overflows, which is undefined behaviour.
pub parse_i64_minus :
    (c : ℕ) (cs : Bytes)
    → AreDigits (c ∷ cs)
    → decimal_value (c ∷ cs) < 2 ^ 64
    → parse_i64 (b'-' ∷ c ∷ cs) ≡ (
        if ltb (decimal_value (c ∷ cs)) (2 ^ 63)
        then ok (negate (decimal_value (c ∷ cs)))
        else if decimal_value (c ∷ cs) == 2 ^ 63
        then fault
        else error no_success)
unfolding signed_of
parse_i64_minus c cs ds fits =
    minus_sign (c ∷ cs) ∙ magnitude_exact true c cs ds fits ∙ ground arith

-- parse_i64 on digits with no sign, by the number that they write, if that is below 2 ^ 64: up to
-- 2 ^ 63 - 1 it returns the number, and above it fails.
pub parse_i64_digits :
    (c : ℕ) (cs : Bytes)
    → AreDigits (c ∷ cs)
    → decimal_value (c ∷ cs) < 2 ^ 64
    → parse_i64 (c ∷ cs) ≡ (
        if ltb (decimal_value (c ∷ cs)) (2 ^ 63)
        then ok (pos (decimal_value (c ∷ cs)))
        else error no_success)
unfolding signed_of
parse_i64_digits c cs ds fits =
    no_sign c cs ds.0 ∙ magnitude_exact false c cs ds fits ∙ ground arith
