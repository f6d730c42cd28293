-- ===== src/NumberParsing/Value.antt =====
-- The number that a string of decimal digits writes, with no bound.
use my_simple_c_http_server.Prelude.{
  ℕ, ◌+◌, ◌-◌, ◌*◌, ◌%◌, ◌≤◌, ◌^◌, ◌≡◌, refl, [], ◌∷◌, ◌++◌, arith, Bytes,
}

abbrev pub IsDigit : ℕ → Type 0
IsDigit c = (b'0' ≤ c) × (c ≤ b'9')

abbrev pub AreDigits : Bytes → Type 0
AreDigits [] = Unit
AreDigits (c ∷ cs) = IsDigit c × AreDigits cs

-- The value of the digits `cs` behind a number `n`.
unfoldable pub value_from : ℕ → Bytes → ℕ
value_from n [] = n
value_from n (c ∷ cs) = value_from (n * 10 + (c - b'0')) cs

abbrev pub decimal_value : Bytes → ℕ
decimal_value = value_from 0

-- More digits never make a smaller number.
pub le-value_from : (n : ℕ) (cs : Bytes) → n ≤ value_from n cs
unfolding value_from
le-value_from n [] = omega arith
le-value_from n (c ∷ cs) = omega (arith, le-value_from (n * 10 + (c - b'0')) cs)

pub value_from-append :
    (n : ℕ) (cs : Bytes) (d : ℕ) → value_from n (cs ++ d ∷ []) ≡ value_from n cs * 10 + (d - b'0')
unfolding value_from
value_from-append n [] d = refl
value_from-append n (c ∷ cs) d = value_from-append (n * 10 + (c - b'0')) cs d

-- A number and its remainder by 2 ^ 64 give the same digits modulo 2 ^ 64.
pub value_from-mod :
    (n m : ℕ) (cs : Bytes)
    → n % 2 ^ 64 ≡ m % 2 ^ 64
    → value_from n cs % 2 ^ 64 ≡ value_from m cs % 2 ^ 64
unfolding value_from
value_from-mod n m [] h = h
value_from-mod n m (c ∷ cs) h =
    value_from-mod (n * 10 + (c - b'0')) (m * 10 + (c - b'0')) cs (omega arith)
