-- ===== src/Hpack/DynamicTable/Index.antt =====
-- Index arithmetic of the cyclic buffer: a sum reduced by `% capacity` is the sum, or the sum less
-- one round.
use my_simple_c_http_server.Prelude.{
  ℕ, ◌+◌, ◌-◌, ◌%◌, ◌^◌, ◌≤◌, ◌<◌, ◌≡◌, ◌⊎◌, inl, inr, arith, u64, List, length, get_or,
  get_or-take, get_or-append, replicate, length-take, length-append, length-replicate, ◌++◌, ◌∙◌,
}
use native.Mathlib.Nat.{mod-eq_of_lt, mod-eq-sub-mod}
use native.Mathlib.Decide.{dec_lt}
use my_simple_c_http_server.Hpack.DynamicTable.{pred_size, resize}

module _ (s i c : ℕ) (hs : s < c) (hi : i ≤ c) (hc : c ≤ 2 ^ 62) where
  exact : u64 (s + i) ≡ s + i
  exact = omega arith

  pub index_below : s + i < c → u64 (s + i) % c ≡ s + i
  index_below h =
      omega (arith, exact, mod-eq_of_lt {n = u64 (s + i)} {m = c} (omega (arith, exact)))

  pub index_round : c ≤ s + i → s + i < c + c → u64 (s + i) % c ≡ s + i - c
  index_round h k = omega (
    arith,
    exact,
    mod-eq-sub-mod {n = u64 (s + i)} {m = c} (omega (arith, exact)),
    mod-eq_of_lt {n = u64 (s + i) - c} {m = c} (omega (arith, exact)),
  )

  -- Both cases, for an index below the capacity.
  pub index_cases :
      i < c
      → ((s + i < c) × (u64 (s + i) % c ≡ s + i)) ⊎ ((c ≤ s + i) × (u64 (s + i) % c ≡ s + i - c))
  index_cases h = elim (dec_lt (s + i) c) [
    | yes p ↦ inl (p, index_below p)
    | no p ↦ inr (omega arith, index_round (omega arith) (omega arith))
  ]

-- The slot in front of `s`.
pub before_cases :
    (s c : ℕ)
    → s < c
    → c ≤ 2 ^ 62
    → ((s ≡ 0) × (pred_size (u64 (s + c)) % c ≡ c - 1))
      ⊎ ((0 < s) × (pred_size (u64 (s + c)) % c ≡ s - 1))
before_cases s c hs hc = elim (dec_lt 0 s) [
  | yes p ↦ inr (
    p,
    omega (
      arith,
      mod-eq-sub-mod {n = pred_size (u64 (s + c))} {m = c} (omega arith),
      mod-eq_of_lt {n = pred_size (u64 (s + c)) - c} {m = c} (omega arith),
    ),
  )
  | no p ↦
      inl (
        omega arith,
        omega (arith, mod-eq_of_lt {n = pred_size (u64 (s + c))} {m = c} (omega arith)),
      )
]

module _ {ℓ} {A : Type ℓ} (null : A) (n : ℕ) (xs : List A) where
  pub length-resize : length (resize null n xs) ≡ n
  length-resize = omega (
    arith,
    length-take n (xs ++ replicate n null),
    length-append xs (replicate n null),
    length-replicate n null,
  )

  pub get_or-resize :
      (i : ℕ) → i < n → i < length xs → get_or (resize null n xs) i null ≡ get_or xs i null
  get_or-resize i hn hl =
      get_or-take n (xs ++ replicate n null) i null hn
      ∙ get_or-append xs (replicate n null) i null hl
