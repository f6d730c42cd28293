-- ===== src/Hpack/Integer/RoundTrip.antt =====
-- decode_hpack_variable_integer on what encode_hpack_variable_integer writes.
use my_simple_c_http_server.Prelude.{
  ℕ, suc, ◌+◌, ◌-◌, ◌*◌, ◌/◌, ◌%◌, ◌^◌, ◌≤◌, ◌<◌, ◌≡◌, refl, ap, ◌∙◌, ◌∷◌, ◌++◌, some, ltb, leb,
  arith, Bytes, Bool-cases, inl, inr, tests, lt→ltb, ltb-false, ok, fault,
}
use native.Mathlib.Nat.{div-add-mod, mul-le-mul_right}
use my_simple_c_http_server.Prelude.Bits.{low_seven, top_bit}
use my_simple_c_http_server.Hpack.Integer.Encoding.{
  groups, groups_last, groups_more, groups_cons, and_flag, IsFlag, encoding, mask_lt, pow_pos,
  encode-encoding,
}
use my_simple_c_http_server.Hpack.Integer.{
  decode_loop, decode_hpack_variable_integer, encode_hpack_variable_integer, mask_of,
}

-- One round of the loop on a last byte, on an inner byte, and where the shift leaves `int`.
decode_last :
    (w acc amount : ℕ) (rest : Bytes)
    → w < 128
    → amount ≤ 28
    → w * 2 ^ amount < 2 ^ 31
    → acc < 2 ^ 32
    → decode_loop (w ∷ rest) acc amount ≡ ok (acc + w * 2 ^ amount, rest)
unfolding decode_loop
decode_last w acc amount rest hw ha fits hacc = ground (arith, low_seven w, top_bit w)

decode_inner :
    (g acc amount : ℕ) (rest : Bytes)
    → g < 128
    → amount ≤ 28
    → g * 2 ^ amount < 2 ^ 31
    → acc < 2 ^ 32
    → decode_loop ((128 + g) ∷ rest) acc amount
      ≡ decode_loop rest (acc + g * 2 ^ amount) (amount + 7)
unfolding decode_loop
decode_inner g acc amount rest hg ha fits hacc =
    ground (arith, low_seven (128 + g), top_bit (128 + g))

decode_shift_fault :
    (b acc amount : ℕ) (rest : Bytes)
    → b < 256
    → amount < 56
    → 2 ^ 31 ≤ b % 128 * 2 ^ amount
    → decode_loop (b ∷ rest) acc amount ≡ fault
unfolding decode_loop
decode_shift_fault b acc amount rest hb ha over = ground (arith, low_seven b)

decode_wide_fault : (b acc : ℕ) (rest : Bytes) → decode_loop (b ∷ rest) acc 35 ≡ fault
unfolding decode_loop
decode_wide_fault b acc rest = ground arith

-- With `rest` behind them, the loop reads the groups of `w` at shift `a`, if `w` shifted is an `int`.
abbrev ReadsAt : Bytes → ℕ → ℕ → Type 0
ReadsAt rest k a =
    (w acc : ℕ)
    → w * 2 ^ a < 2 ^ 31
    → acc < 2 ^ a + 256
    → decode_loop (groups k w ++ rest) acc a ≡ ok (acc + w * 2 ^ a, rest)

-- It comes to a shift that leaves `int`, if `w` is no less than `t`.
abbrev FaultsAt : Bytes → ℕ → ℕ → ℕ → Type 0
FaultsAt rest k a t =
    (w acc : ℕ) → t ≤ w → acc < 2 ^ a + 256 → decode_loop (groups k w ++ rest) acc a ≡ fault

-- The lowest group of `w` and the others, at their shifts.
split_groups : (w P : ℕ) → w * P ≡ w % 128 * P + w / 128 * (P * 128)
split_groups w P = omega (arith, ap (λ (t : ℕ). t * P) (div-add-mod w 128))

low_group_lt : (w P acc : ℕ) → acc < P + 256 → acc + w % 128 * P < P * 128 + 256
low_group_lt w P acc h = grind (arith, mul-le-mul_right {m = w % 128} {n = 127} P (omega arith))

four_more : (k : ℕ) → 4 + k ≡ suc (suc (suc (suc k)))
four_more k = omega arith

five_more : (k : ℕ) → 5 + k ≡ suc (suc (suc (suc (suc k))))
five_more k = omega arith

module _ (rest : Bytes) where
  reads_28 : (k : ℕ) → ReadsAt rest k 28
  reads_28 k w acc h ha =
      rw (groups_last k w (omega arith))
        (decode_last w acc 28 rest (omega arith) (omega arith) h (omega arith))

  faults_35 : (k w acc : ℕ) → decode_loop (groups k w ++ rest) acc 35 ≡ fault
  faults_35 k w acc =
      let (b, bytes, e) = groups_cons k w in rw e (decode_wide_fault b acc (bytes ++ rest))

  faults_28 : (k : ℕ) → FaultsAt rest (suc k) 28 8
  faults_28 k w acc h ha = elim (Bool-cases (leb 128 w)) [
    | inl more ↦ rw (groups_more k w (omega tests)) (elim (Bool-cases (leb 8 (w % 128))) [
      | inl wide ↦
          decode_shift_fault (128 + w % 128) acc 28 _ (omega arith) (omega arith) (omega tests)
      | inr narrow ↦
          decode_inner (w % 128) acc 28 _ (omega arith) (omega arith) (omega tests) (omega arith)
          ∙ faults_35 k (w / 128) (acc + w % 128 * 2 ^ 28)
    ])
    | inr last ↦
        rw (groups_last (suc k) w (omega tests))
          (decode_shift_fault w acc 28 rest (omega tests) (omega arith) (omega tests))
  ]

  module _ (k a : ℕ) (ha : a ≤ 21) (small : 2 ^ a ≤ 2 ^ 21)
      (next_pow : 2 ^ (a + 7) ≡ 2 ^ a * 128) where
    reads_step : ReadsAt rest k (a + 7) → ReadsAt rest (suc k) a
    reads_step next w acc h hacc = elim (Bool-cases (leb 128 w)) [
      | inl more ↦ rw (groups_more k w (omega tests)) (
          decode_inner (w % 128) acc a _ (omega arith) (omega arith)
            (omega (arith, split_groups w (2 ^ a))) (omega arith)
          ∙ next (w / 128) (acc + w % 128 * 2 ^ a)
              (rw next_pow (omega (arith, split_groups w (2 ^ a))))
              (rw next_pow (low_group_lt w (2 ^ a) acc hacc))
          ∙ ap (λ n. ok (n, rest)) (rw next_pow (omega (arith, split_groups w (2 ^ a)))))
      | inr last ↦
          rw (groups_last (suc k) w (omega tests))
            (decode_last w acc a rest (omega tests) (omega arith) h (omega arith))
    ]

    faults_step : (t : ℕ) → 0 < t → FaultsAt rest k (a + 7) t → FaultsAt rest (suc k) a (t * 128)
    faults_step t pos next w acc h hacc = rw (groups_more k w (omega arith)) (
        decode_inner (w % 128) acc a _ (omega arith) (omega arith)
          (grind (arith, mul-le-mul_right {m = w % 128} {n = 127} (2 ^ a) (omega arith)))
          (omega arith)
        ∙ next (w / 128) (acc + w % 128 * 2 ^ a) (omega arith)
            (rw next_pow (low_group_lt w (2 ^ a) acc hacc)))

  pub reads_0 : (k : ℕ) → ReadsAt rest (4 + k) 0
  reads_0 k = rw (four_more k) (
      reads_step _ 0 (omega arith) (omega arith) refl (
        reads_step _ 7 (omega arith) (omega arith) refl (
          reads_step _ 14 (omega arith) (omega arith) refl
            (reads_step _ 21 (omega arith) (omega arith) refl (reads_28 k)))))

  pub faults_0 : (k : ℕ) → FaultsAt rest (5 + k) 0 (2 ^ 31)
  faults_0 k = rw (five_more k) (
      faults_step _ 0 (omega arith) (omega arith) refl _ (omega arith) (
        faults_step _ 7 (omega arith) (omega arith) refl _ (omega arith) (
          faults_step _ 14 (omega arith) (omega arith) refl _ (omega arith)
            (faults_step _ 21 (omega arith) (omega arith) refl 8 (omega arith) (faults_28 k)))))

module _ {p flag : ℕ} (f : IsFlag p flag) (v : ℕ) (rest : Bytes) where
  short_first : v < 2 ^ p - 1 → decode_hpack_variable_integer p ((flag + v) ∷ rest) ≡ ok (v, rest)
  unfolding decode_hpack_variable_integer
  short_first h =
      rw (mask_lt f, and_flag p flag v f.narrow (omega (arith, f.above)) (omega arith) f.clear)
        (rw (lt→ltb v (2 ^ p - 1) h))

  long_first :
      (bytes : Bytes)
      → decode_hpack_variable_integer p ((flag + (2 ^ p - 1)) ∷ bytes)
        ≡ decode_loop bytes (2 ^ p - 1) 0
  unfolding decode_hpack_variable_integer
  long_first bytes =
      rw
        (
          mask_lt f,
          and_flag p flag (2 ^ p - 1) f.narrow (omega (arith, f.above, pow_pos f))
              (omega (arith, pow_pos f)) f.clear,
        )
        (rw (ltb-false (2 ^ p - 1) (2 ^ p - 1) (omega arith)))

  -- What the decoder makes of an encoding.
  pub decode-encoding :
      v < 2 ^ 31 + mask_of p
      → decode_hpack_variable_integer p (encoding flag v p ++ rest) ≡ ok (v, rest)
  decode-encoding h = elim (Bool-cases (ltb v (2 ^ p - 1))) [
    | inl short ↦ rw short (short_first (omega tests))
    | inr long ↦ rw long (
        long_first (groups 9 (v - (2 ^ p - 1)) ++ rest)
        ∙ reads_0 rest 5 (v - (2 ^ p - 1)) (2 ^ p - 1) (omega (arith, mask_lt f))
            (omega (arith, f.above))
        ∙ ap (λ n. ok (n, rest)) (omega tests))
  ]

  pub decode-encoding_fault :
      2 ^ 31 + mask_of p ≤ v → decode_hpack_variable_integer p (encoding flag v p ++ rest) ≡ fault
  decode-encoding_fault h = rw (ltb-false v (2 ^ p - 1) (omega (arith, mask_lt f))) (
      long_first (groups 9 (v - (2 ^ p - 1)) ++ rest)
      ∙ faults_0 rest 4 (v - (2 ^ p - 1)) (2 ^ p - 1) (omega (arith, mask_lt f))
          (omega (arith, f.above)))

  -- The decoder reads back what the encoder wrote for `v`, and leaves the bytes behind it, if
  -- `v` less the prefix mask is below 2 ^ 31.
  pub decode-encode :
      v < 2 ^ 31 + mask_of p
      → (bytes : Bytes) × (encode_hpack_variable_integer flag v p ≡ some bytes)
        × (decode_hpack_variable_integer p (bytes ++ rest) ≡ ok (v, rest))
  decode-encode h =
      (encoding flag v p, encode-encoding f v (omega (arith, mask_lt f)), decode-encoding h)

  -- For any larger uint64 the encoder returns bytes as well, and the decoder comes to a shift that
  -- leaves `int` on them, which is undefined behaviour.
  pub decode-encode_fault :
      2 ^ 31 + mask_of p ≤ v
      → v < 2 ^ 64
      → (bytes : Bytes) × (encode_hpack_variable_integer flag v p ≡ some bytes)
        × (decode_hpack_variable_integer p (bytes ++ rest) ≡ fault)
  decode-encode_fault h wide =
      (encoding flag v p, encode-encoding f v wide, decode-encoding_fault h)
