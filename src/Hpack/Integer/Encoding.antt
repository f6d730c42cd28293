-- ===== src/Hpack/Integer/Encoding.antt =====
-- What encode_hpack_variable_integer writes, in plain arithmetic.
use my_simple_c_http_server.Prelude.{
  ℕ, zero, suc, ◌+◌, ◌-◌, ◌/◌, ◌%◌, ◌^◌, ◌≤◌, ◌<◌, ◌≡◌, refl, ◌∙◌, [], ◌∷◌, some, bit_and, bit_or,
  ltb, leb, if◌then◌else◌, arith, Bytes, length, Bool-cases, inl, inr, tests,
}
use my_simple_c_http_server.Prelude.Bits.{and_seven_bits, and_mask, or_split, two_pow_pos}
use my_simple_c_http_server.Hpack.Integer.{encode_loop, encode_hpack_variable_integer, mask_of}
use native.Mathlib.Nat.{mod-eq_of_lt}

-- The groups of seven bits of `v`, lowest first, for `v` below 128 ^ (k + 1).
unfoldable pub groups : ℕ → ℕ → Bytes
groups zero v = v ∷ []
groups (suc k) v =
    let rest = groups k (v / 128) in if leb 128 v then (128 + v % 128) ∷ rest else v ∷ []

pub encode_loop-groups : (k v : ℕ) → v < 128 ^ suc k → encode_loop (suc k) v ≡ some (groups k v)
unfolding encode_loop groups
encode_loop-groups zero v h = ground arith
encode_loop-groups (suc k) v h = elim (Bool-cases (leb 128 v)) [
  | inl more ↦ rw (more, and_seven_bits, encode_loop-groups k (v / 128) (omega arith))
  | inr last ↦ rw last
]

pub groups_last : (k v : ℕ) → v < 128 → groups k v ≡ v ∷ []
unfolding groups
groups_last zero v h = refl
groups_last (suc k) v h = ground arith

pub groups_more : (k v : ℕ) → 128 ≤ v → groups (suc k) v ≡ (128 + v % 128) ∷ groups k (v / 128)
unfolding groups
groups_more k v h = ground arith

pub groups_cons : (k v : ℕ) → (b : ℕ) × (bytes : Bytes) × (groups k v ≡ b ∷ bytes)
unfolding groups
groups_cons zero v = (v, [], refl)
groups_cons (suc k) v = elim (Bool-cases (leb 128 v)) [
  | inl more ↦ (128 + v % 128, groups k (v / 128), rw more)
  | inr last ↦ (v, [], rw last)
]

pub length-groups : (k v : ℕ) → length (groups k v) ≤ suc k
unfolding groups
length-groups zero v = omega arith
length-groups (suc k) v = ground (arith, length-groups k (v / 128))

pub length-groups_small : (j k v : ℕ) → v < 128 ^ suc j → length (groups k v) ≤ suc j
unfolding groups
length-groups_small j zero v h = omega arith
length-groups_small zero (suc k) v h = rw (groups_last (suc k) v (omega arith)) (omega arith)
length-groups_small (suc j) (suc k) v h =
    ground (arith, length-groups_small j k (v / 128) (omega arith))

-- A flag above the low `p` bits, and a number below 2 ^ p.
module _ (p flag v : ℕ) (hp : p ≤ 8) (hb : flag + v < 256) (hv : v < 2 ^ p)
    (hf : flag % 2 ^ p ≡ 0) where
  low_part : (flag + v) % 2 ^ p ≡ v
  low_part = grind (arith, mod-eq_of_lt)

  flag_part : flag + v - (flag + v) % 2 ^ p ≡ flag
  flag_part = omega (arith, low_part)

  pub or_flag : bit_or flag v ≡ flag + v
  or_flag = rw (flag_part, low_part) at (or_split p (flag + v) hp hb)

  pub and_flag : bit_and (flag + v) (2 ^ p - 1) ≡ v
  and_flag = and_mask p (flag + v) hp hb ∙ low_part

-- The first byte of an encoding: `flag` is what the code puts above a prefix of `p` bits.
pub record IsFlag (p flag : ℕ) : Type 0 where
  pub narrow : p ≤ 8
  pub above : flag + 2 ^ p ≤ 256
  pub clear : flag % 2 ^ p ≡ 0

-- The bytes of `v` behind `flag`, in plain arithmetic.
abbrev pub encoding : ℕ → ℕ → ℕ → Bytes
encoding flag v p =
    if ltb v (2 ^ p - 1) then (flag + v) ∷ [] else (flag + (2 ^ p - 1)) ∷ groups 9 (v - (2 ^ p - 1))

module _ {p flag : ℕ} (f : IsFlag p flag) where
  pub mask_lt : mask_of p ≡ 2 ^ p - 1
  mask_lt = omega (arith, f.above)

  pub pow_pos : 0 < 2 ^ p
  pow_pos = two_pow_pos p

  -- On every uint64, and every prefix whose flag leaves its bits clear, the encoder succeeds, and the
  -- bytes that it writes are the flag above the number, or above a full prefix and before the groups
  -- of seven bits of the rest, lowest first, each but the last with its top bit set.
  pub encode-encoding :
      (v : ℕ) → v < 2 ^ 64 → encode_hpack_variable_integer flag v p ≡ some (encoding flag v p)
  unfolding encode_hpack_variable_integer
  encode-encoding v h = rw mask_lt (elim (Bool-cases (ltb v (2 ^ p - 1))) [
    | inl short ↦ rw (
      short,
      and_mask p v f.narrow (omega (tests, f.above)),
      mod-eq_of_lt {n = v} {m = 2 ^ p} (omega tests),
      or_flag p flag v f.narrow (omega (tests, f.above)) (omega tests) f.clear,
    )
    | inr long ↦ rw (
      long,
      encode_loop-groups 9 (v - (2 ^ p - 1)) (omega arith),
      or_flag p flag (2 ^ p - 1) f.narrow (omega (arith, f.above, pow_pos)) (omega (arith, pow_pos))
          f.clear,
    )
  ])

  pub length-encoding : (v : ℕ) → length (encoding flag v p) ≤ 11
  length-encoding v = ground (arith, length-groups 9 (v - (2 ^ p - 1)))

  pub length-encoding_small : (v : ℕ) → v < 2 ^ 31 → length (encoding flag v p) ≤ 6
  length-encoding_small v h =
      ground (arith, length-groups_small 4 9 (v - (2 ^ p - 1)) (omega arith))

  -- An encoding begins with the flag above a number below 2 ^ p.
  pub encoding_first :
      (v : ℕ)
      → (b : ℕ) × (bytes : Bytes) × (encoding flag v p ≡ b ∷ bytes)
        × (flag ≤ b)
        × (b < flag + 2 ^ p)
  encoding_first v = elim (Bool-cases (ltb v (2 ^ p - 1))) [
    | inl short ↦ (flag + v, [], rw short, omega arith, omega (tests, pow_pos))
    | inr long ↦ (
      flag + (2 ^ p - 1),
      groups 9 (v - (2 ^ p - 1)),
      rw long,
      omega arith,
      omega (arith, pow_pos),
    )
  ]
