-- ===== src/Hpack/DynamicTable/Shrink.antt =====
-- The moves of hpack_dynamic_table_pop_at_end: the entries are brought to the front of the array
-- without overwriting one that is still to be moved.
use my_simple_c_http_server.Prelude.{
  ℕ, zero, suc, ◌+◌, ◌-◌, ◌/◌, ◌%◌, ◌≤◌, ◌<◌, ◌≡◌, refl, ◌∙◌, ◌⊎◌, inl, inr, ap, arith, u64, List,
  length, get_or, set, get_or-set_self, get_or-set_ne, length-set, leb, ◌==◌, if◌then◌else◌,
  tabulate_ext, Bool-cases, tests, ==_iff,
}
use native.Mathlib.Decide.{dec_lt}
use my_simple_c_http_server.Hpack.DynamicTable.{
  Table, IsValid, slot, contents, move_from_end, move_from_start, shrink, resize,
}
use my_simple_c_http_server.Hpack.DynamicTable.Index.{
  index_below, index_cases, length-resize, get_or-resize,
}

module _ {ℓ} {A : Type ℓ} (null : A) (s c : ℕ) where
  abbrev source : ℕ → ℕ
  source i = u64 (s + i) % c

  length-move_from_end : (n : ℕ) (xs : List A) → length (move_from_end null s c n xs) ≡ length xs
  unfolding move_from_end
  length-move_from_end zero xs = refl
  length-move_from_end (suc n) xs = length-move_from_end n _ ∙ length-set xs n _

  length-move_from_start :
      (n i : ℕ) (xs : List A) → length (move_from_start null s c n i xs) ≡ length xs
  unfolding move_from_start
  length-move_from_start zero i xs = refl
  length-move_from_start (suc n) i xs = length-move_from_start n (suc i) _ ∙ length-set xs i _

  -- Slots from `n` on are left alone.
  move_from_end_other :
      (n : ℕ) (xs : List A) (j : ℕ)
      → n ≤ j
      → get_or (move_from_end null s c n xs) j null ≡ get_or xs j null
  unfolding move_from_end
  move_from_end_other zero xs j h = refl
  move_from_end_other (suc n) xs j h =
      move_from_end_other n _ j (omega arith) ∙ get_or-set_ne xs n j _ null (λ e. omega arith)

  -- From the end: no source lies among the slots that are written before it is read.
  move_from_end_slot :
      (n : ℕ) (xs : List A)
      → ((k : ℕ) → k < n → (source k ≤ k) ⊎ (n ≤ source k))
      → n ≤ length xs
      → (j : ℕ) → j < n
      → get_or (move_from_end null s c n xs) j null ≡ get_or xs (source j) null
  unfolding move_from_end
  move_from_end_slot zero xs free h j hj = absurd (omega arith)
  move_from_end_slot (suc n) xs free h j hj =
      let entry = get_or xs (source n) null in
      elim (dec_lt j n) [
        | yes below ↦
            move_from_end_slot n (set xs n entry) (λ k hk. omega (arith, free k (omega arith)))
              (omega (arith, length-set xs n entry)) j below
            ∙ get_or-set_ne xs n (source j) entry null (λ e. omega (arith, free j hj))
        | no last ↦
            let same : j ≡ n = omega arith in
            rw same (
              move_from_end_other n (set xs n entry) n (omega arith)
              ∙ get_or-set_self xs n entry null (omega arith))
      ]

  move_from_start_other :
      (n i : ℕ) (xs : List A) (j : ℕ)
      → j < i
      → get_or (move_from_start null s c n i xs) j null ≡ get_or xs j null
  unfolding move_from_start
  move_from_start_other zero i xs j h = refl
  move_from_start_other (suc n) i xs j h =
      move_from_start_other n (suc i) _ j (omega arith)
      ∙ get_or-set_ne xs i j _ null (λ e. omega arith)

  -- From the start: every source lies behind its target.
  move_from_start_slot :
      (n i : ℕ) (xs : List A)
      → ((k : ℕ) → k < i + n → k < source k)
      → i + n ≤ length xs
      → (j : ℕ) → i ≤ j
      → j < i + n
      → get_or (move_from_start null s c n i xs) j null ≡ get_or xs (source j) null
  unfolding move_from_start
  move_from_start_slot zero i xs behind h j hi hj = absurd (omega arith)
  move_from_start_slot (suc n) i xs behind h j hi hj =
      let entry = get_or xs (source i) null in
      elim (dec_lt i j) [
        | yes later ↦
            move_from_start_slot n (suc i) (set xs i entry) (λ k hk. behind k (omega arith))
              (omega (arith, length-set xs i entry)) j later (omega arith)
            ∙ get_or-set_ne xs i (source j) entry null (λ e. omega (arith, behind j hj))
        | no first ↦
            let same : j ≡ i = omega arith in
            rw same (
              move_from_start_other n (suc i) (set xs i entry) i (omega arith)
              ∙ get_or-set_self xs i entry null (omega arith))
      ]

module _ {ℓ} {A : Type ℓ} (null : A) (t : Table A) (v : IsValid t)
    (small : t.count < t.capacity / 4) where
  half : ℕ
  half = t.capacity / 2

  start_lt : t.start < t.capacity
  start_lt = omega (arith, v.starts)

  moved : List A
  moved =
      if leb half t.start
      then move_from_end null t.start t.capacity t.count t.entries
      else if t.start == 0
      then t.entries
      else move_from_start null t.start t.capacity t.count 0 t.entries

  cases_of :
      (k : ℕ)
      → k < t.count
      → ((t.start + k < t.capacity) × (u64 (t.start + k) % t.capacity ≡ t.start + k))
        ⊎ ((t.capacity ≤ t.start + k) × (u64 (t.start + k) % t.capacity ≡ t.start + k - t.capacity))
  cases_of k h = index_cases t.start k t.capacity start_lt (omega arith) v.bounded (omega arith)

  moved-slot : (j : ℕ) → j < t.count → get_or moved j null ≡ slot null t j
  unfolding moved half
  moved-slot j hj = elim (Bool-cases (leb half t.start)) [
    | inl upper ↦ rw upper (
        move_from_end_slot null t.start t.capacity t.count t.entries
          (λ k hk. omega (tests, cases_of k hk)) (omega (arith, v.room)) j hj)
    | inr lower ↦ rw lower (elim (Bool-cases (t.start == 0)) [
      | inl zero_start ↦ rw zero_start (
          ap (λ k. get_or t.entries k null)
            (omega (arith, cases_of j hj, (==_iff t.start 0).0 zero_start)))
      | inr other ↦ rw other (
          move_from_start_slot null t.start t.capacity t.count 0 t.entries
            (λ k hk. grind (tests, cases_of k (omega arith), ==_iff t.start 0))
            (omega (arith, v.room)) j (omega arith) (omega arith))
    ])
  ]

  length-moved : length moved ≡ t.capacity
  unfolding moved half
  length-moved = elim (Bool-cases (leb half t.start)) [
    | inl upper ↦ rw upper (length-move_from_end null t.start t.capacity t.count t.entries ∙ v.room)
    | inr lower ↦ rw lower (elim (Bool-cases (t.start == 0)) [
      | inl zero_start ↦ rw zero_start v.room
      | inr other ↦
          rw other (length-move_from_start null t.start t.capacity t.count 0 t.entries ∙ v.room)
    ])
  ]

  shrunk_slot : (j : ℕ) → j < t.count → slot null (shrink null half t) j ≡ slot null t j
  unfolding shrink moved half
  shrunk_slot j hj =
      rw (index_below 0 j half (omega arith) (omega arith) (omega (arith, v.bounded)) (omega arith))
        (ap (λ k. get_or (resize null half moved) k null) {y = j} (omega arith)
          ∙ get_or-resize null half moved j (omega arith) (omega (arith, length-moved))
          ∙ moved-slot j hj)

  pub contents-shrink : contents null (shrink null (t.capacity / 2) t) ≡ contents null t
  unfolding shrink half
  contents-shrink = tabulate_ext t.count _ _ shrunk_slot

  pub shrink-IsValid : IsValid (shrink null (t.capacity / 2) t)
  unfolding shrink half moved
  shrink-IsValid = record {
    fits = omega arith;
    starts = omega arith;
    room = length-resize null half moved;
    bounded = omega (arith, v.bounded);
  }
