-- ===== src/Prelude/Bits.antt =====
-- Masks as arithmetic. On one byte each fact is a table over all bytes, checked by evaluation; at
-- any width a mask is taken off one digit at a time.
use Prim.Native.Nat.{ℕ, zero, suc, ◌+◌, ◌-◌, ◌*◌, ◌/◌, ◌%◌, ◌^◌, ◌<◌, ◌≤◌, min, bit_and, bit_or}
use Prim.Native.Nat.{digits, bit_and-bitwise}
use mathlib.Core.Path.{◌≡◌, refl, ap}
use mathlib.Core.Bool.{Bool, true, false}
use native.Mathlib.Omega.{arith}
use native.Mathlib.Nat.{pow-suc}
use my_simple_c_http_server.Prelude.Tests.{◌==◌, ==_iff, if◌then◌else◌}

-- Whether a test passes on each of the first numbers.
unfoldable pub tabled : (ℕ → Bool) → ℕ → Bool
tabled test zero = true
tabled test (suc count) = if test count then tabled test count else false

pub tabled_lem :
    (test : ℕ → Bool) (count x : ℕ) → tabled test count ≡ true → x < count → test x ≡ true
unfolding tabled
tabled_lem test (suc count) x passed h = ground (arith, tabled_lem test count x)
tabled_lem test zero x passed h = absurd (omega arith)

-- Two functions on a byte that a table finds equal.
on_bytes : (f g : ℕ → ℕ) → tabled (λ x. f x == g x) 256 ≡ true → (x : ℕ) → x < 256 → f x ≡ g x
on_bytes f g all x h = (==_iff (f x) (g x)).0 (tabled_lem (λ y. f y == g y) 256 x all h)

low_masks : tabled (λ p. tabled (λ x. bit_and x (2 ^ p - 1) == x % 2 ^ p) 256) 9 ≡ true
unfolding tabled
low_masks = refl

-- A mask of `p` ones keeps the low `p` bits.
pub and_mask : (p x : ℕ) → p ≤ 8 → x < 256 → bit_and x (2 ^ p - 1) ≡ x % 2 ^ p
and_mask p x hp =
    on_bytes (λ y. bit_and y (2 ^ p - 1)) (λ y. y % 2 ^ p)
      (tabled_lem (λ q. tabled (λ y. bit_and y (2 ^ q - 1) == y % 2 ^ q) 256) 9 p low_masks
        (omega arith))
      x

joins : tabled (λ p. tabled (λ x. bit_or (x - x % 2 ^ p) (x % 2 ^ p) == x) 256) 9 ≡ true
unfolding tabled
joins = refl

-- High bits and low bits join by `|`.
pub or_split : (p x : ℕ) → p ≤ 8 → x < 256 → bit_or (x - x % 2 ^ p) (x % 2 ^ p) ≡ x
or_split p x hp =
    on_bytes (λ y. bit_or (y - y % 2 ^ p) (y % 2 ^ p)) (λ y. y)
      (tabled_lem (λ q. tabled (λ y. bit_or (y - y % 2 ^ q) (y % 2 ^ q) == y) 256) 9 p joins
        (omega arith))
      x

pub low_seven : (x : ℕ) → x < 256 → bit_and x 0x7f ≡ x % 128
unfolding tabled
low_seven = on_bytes (λ x. bit_and x 0x7f) (λ x. x % 128) refl

pub top_bit : (x : ℕ) → x < 256 → bit_and x 0x80 ≡ x / 128 * 128
unfolding tabled
top_bit = on_bytes (λ x. bit_and x 0x80) (λ x. x / 128 * 128) refl

pub top_two_bits : (x : ℕ) → x < 256 → bit_and x 0xC0 ≡ x / 64 * 64
unfolding tabled
top_two_bits = on_bytes (λ x. bit_and x 0xC0) (λ x. x / 64 * 64) refl

pub top_three_bits : (x : ℕ) → x < 256 → bit_and x 0xE0 ≡ x / 32 * 32
unfolding tabled
top_three_bits = on_bytes (λ x. bit_and x 0xE0) (λ x. x / 32 * 32) refl

pub top_four_bits : (x : ℕ) → x < 256 → bit_and x 0xF0 ≡ x / 16 * 16
unfolding tabled
top_four_bits = on_bytes (λ x. bit_and x 0xF0) (λ x. x / 16 * 16) refl

module _ (z : ℕ → ℕ) (f : ℕ → ℕ → ℕ) where
  -- Any count of rounds that is no smaller than the first number gives the same digits.
  digits_enough : (n m a b : ℕ) → a ≤ n → a ≤ m → digits z f n a b ≡ digits z f m a b
  digits_enough zero zero zero b p q = refl
  digits_enough zero (suc m) zero b p q = refl
  digits_enough (suc n) zero zero b p q = refl
  digits_enough (suc n) (suc m) zero b p q = refl
  digits_enough zero m (suc a) b p q = absurd (omega arith)
  digits_enough (suc n) zero (suc a) b p q = absurd (omega arith)
  digits_enough (suc n) (suc m) (suc a) b p q =
      ap (λ d. d * 2 + f (suc a % 2) (b % 2))
        (digits_enough n m (suc a / 2) (b / 2) (omega arith) (omega arith))

-- The lowest digit of a conjunction, and the digits above it.
and_digit : (a b : ℕ) → bit_and a b ≡ bit_and (a / 2) (b / 2) * 2 + min (a % 2) (b % 2)
and_digit zero b = omega (arith, bit_and-bitwise 0 b, bit_and-bitwise 0 (b / 2))
and_digit (suc a) b =
    let half : ℕ = suc a / 2 in
    omega (
      arith,
      bit_and-bitwise (suc a) b,
      bit_and-bitwise half (b / 2),
      digits_enough (λ _. 0) min a half half (b / 2) (omega arith) (omega arith),
    )

and_zero_below : (n a : ℕ) → a ≤ n → bit_and a 0 ≡ 0
and_zero_below zero zero h = refl
and_zero_below (suc n) zero h = refl
and_zero_below zero (suc a) h = absurd (omega arith)
and_zero_below (suc n) (suc a) h =
    omega (arith, and_digit (suc a) 0, and_zero_below n (suc a / 2) (omega arith))

-- A mask that ends in a one takes the lowest digit and masks the rest.
and_odd : (a m : ℕ) → bit_and a (m * 2 + 1) ≡ bit_and (a / 2) m * 2 + a % 2
and_odd a m = rw (and_digit a (m * 2 + 1), half) (omega arith)
  where
    half : (m * 2 + 1) / 2 ≡ m
    half = omega arith

-- The low seven bits of a number of any width.
pub and_seven_bits : (a : ℕ) → bit_and a 0x7f ≡ a % 128
and_seven_bits a = omega (
  arith,
  and_odd a 63,
  and_odd (a / 2) 31,
  and_odd (a / 2 / 2) 15,
  and_odd (a / 2 / 2 / 2) 7,
  and_odd (a / 2 / 2 / 2 / 2) 3,
  and_odd (a / 2 / 2 / 2 / 2 / 2) 1,
  and_odd (a / 2 / 2 / 2 / 2 / 2 / 2) 0,
  and_zero_below (a / 2 / 2 / 2 / 2 / 2 / 2 / 2) (a / 2 / 2 / 2 / 2 / 2 / 2 / 2) (omega arith),
)

pub two_pow_pos : (p : ℕ) → 0 < 2 ^ p
two_pow_pos zero = omega arith
two_pow_pos (suc p) = omega (arith, two_pow_pos p, pow-suc 2 p)

and_le_below : (n a b : ℕ) → a ≤ n → bit_and a b ≤ b
and_le_below n zero b h = omega (arith, bit_and-bitwise 0 b)
and_le_below zero (suc a) b h = absurd (omega arith)
and_le_below (suc n) (suc a) b h =
    omega (arith, and_digit (suc a) b, and_le_below n (suc a / 2) (b / 2) (omega arith))

-- A mask bounds what it lets through.
pub and_le : (a b : ℕ) → bit_and a b ≤ b
and_le a b = and_le_below a a b (omega arith)
