-- ===== src/Hpack/DynamicTable/Insert.antt =====
-- hpack_dynamic_table_insert_at_start of src/http/dynamic_hpack_table.c, on the contents of a table.
use my_simple_c_http_server.Prelude.{
  ℕ, zero, suc, ◌+◌, ◌-◌, ◌%◌, ◌^◌, ◌≤◌, ◌<◌, ◌≡◌, refl, ◌∙◌, ◌⊎◌, inl, inr, ap, arith, u64, Bool,
  true, false, List, ◌∷◌, length, get_or, set, get_or-set_self, get_or-set_ne, length-set, leb,
  ◌==◌, tabulate, tabulate_ext, Bool-cases, tests, ◌≢◌, ==_iff,
}
use mathlib.Core.Path.{ap₂}
use native.Mathlib.Decide.{dec_lt}
use my_simple_c_http_server.Hpack.DynamicTable.{
  Table, IsValid, slot, contents, push_start, grow, copy_behind, insert_at_start, calc_grow,
  pred_size, resize,
}
use my_simple_c_http_server.Hpack.DynamicTable.Index.{
  index_below, index_cases, before_cases, length-resize, get_or-resize,
}

module _ {ℓ} {A : Type ℓ} (null : A) where
  -- A cyclic window of `n` slots from `s` on, and the slot `f` in front of it.
  module _ (xs : List A) (s c n f : ℕ) (hs : s < c) (hc : c ≤ 2 ^ 62) (hn : n < c)
      (long : length xs ≡ c) (front : ((s ≡ 0) × (f ≡ c - 1)) ⊎ ((0 < s) × (f ≡ s - 1))) where
    front_lt : f < c
    front_lt = omega (arith, front)

    next_index : (i : ℕ) → i < n → u64 (f + suc i) % c ≡ u64 (s + i) % c
    next_index i hi = grind (
      arith,
      index_cases f (suc i) c front_lt (omega arith) hc,
      index_cases s i c hs (omega arith) hc,
    )

    index_ne : (i : ℕ) → i < n → f ≢ u64 (s + i) % c
    index_ne i hi = λ e. grind (arith, index_cases s i c hs (omega arith) hc)

    window-set :
        (entry : A)
        → tabulate (suc n) (λ i. get_or (set xs f entry) (u64 (f + i) % c) null)
          ≡ entry ∷ tabulate n (λ i. get_or xs (u64 (s + i) % c) null)
    window-set entry =
        ap₂ ◌∷◌
          (ap (λ k. get_or (set xs f entry) k null)
              (index_below f 0 c front_lt (omega arith) hc (omega (arith, front_lt)) ∙ omega arith)
            ∙ get_or-set_self xs f entry null (omega (arith, front_lt)))
          (tabulate_ext n _ _ λ i hi.
            ap (λ k. get_or (set xs f entry) k null) (next_index i hi)
            ∙ get_or-set_ne xs f (u64 (s + i) % c) entry null (index_ne i hi))

  module _ (t : Table A) (v : IsValid t) (space : t.count < t.capacity) (entry : A) where
    new_start_cases :
        ((t.start ≡ 0) × (pred_size (u64 (t.start + t.capacity)) % t.capacity ≡ t.capacity - 1))
        ⊎ ((0 < t.start) × (pred_size (u64 (t.start + t.capacity)) % t.capacity ≡ t.start - 1))
    new_start_cases = before_cases t.start t.capacity (omega (arith, v.starts)) v.bounded

    push_start-IsValid : IsValid (push_start null t entry)
    unfolding push_start
    push_start-IsValid = record {
      fits = omega (arith, v.bounded);
      starts = omega (arith, new_start_cases, v.starts);
      room = length-set t.entries _ entry ∙ v.room;
      bounded = v.bounded;
    }

    contents-push_start : contents null (push_start null t entry) ≡ entry ∷ contents null t
    unfolding push_start
    contents-push_start =
        ap (λ n. tabulate n (slot null (push_start null t entry))) {y = suc t.count}
          (omega (arith, v.bounded))
        ∙ window-set t.entries t.start t.capacity t.count _ (omega (arith, v.starts)) v.bounded
            space v.room new_start_cases entry

  -- The copy of the first slots behind the last.
  module _ (c : ℕ) where
    length-copy_behind : (k i : ℕ) (xs : List A) → length (copy_behind null c k i xs) ≡ length xs
    unfolding copy_behind
    length-copy_behind zero i xs = refl
    length-copy_behind (suc k) i xs = length-copy_behind k (suc i) _ ∙ length-set xs _ _

    -- Slots that are not written keep their entry.
    copy_behind_other :
        (k i : ℕ) (xs : List A) (j : ℕ)
        → c + (i + k) < 2 ^ 64
        → (j < c + i) ⊎ (c + (i + k) ≤ j)
        → get_or (copy_behind null c k i xs) j null ≡ get_or xs j null
    unfolding copy_behind
    copy_behind_other zero i xs j hb h = refl
    copy_behind_other (suc k) i xs j hb h =
        copy_behind_other k (suc i) _ j (omega arith) (omega arith)
        ∙ get_or-set_ne xs (u64 (c + i)) j _ null (λ e. omega arith)

    copy_behind_target :
        (k i : ℕ) (xs : List A) (j : ℕ)
        → i + k ≤ c
        → c + (i + k) ≤ length xs
        → length xs < 2 ^ 64
        → i ≤ j
        → j < i + k
        → get_or (copy_behind null c k i xs) (c + j) null ≡ get_or xs j null
    unfolding copy_behind
    copy_behind_target zero i xs j hc hl hb hi hj = absurd (omega arith)
    copy_behind_target (suc k) i xs j hc hl hb hi hj =
        let target : u64 (c + i) ≡ c + i = omega arith in
        let write = set xs (u64 (c + i)) (get_or xs i null) in
        elim (dec_lt i j) [
          | yes later ↦
              copy_behind_target k (suc i) write j (omega arith)
                (omega (arith, length-set xs (u64 (c + i)) (get_or xs i null)))
                (omega (arith, length-set xs (u64 (c + i)) (get_or xs i null))) later (omega arith)
              ∙ get_or-set_ne xs (u64 (c + i)) j _ null (λ e. omega arith)
          | no here ↦
              let same : j ≡ i = omega arith in
              copy_behind_other k (suc i) write (c + j) (omega arith) (inl (omega arith))
              ∙ rw (same, target) (get_or-set_self xs (c + i) (get_or xs i null) null (omega arith))
        ]

  -- A full table in an array of twice the size.
  module _ (t : Table A) (v : IsValid t) (full : t.count ≡ t.capacity) (n : ℕ)
      (wider : t.capacity + t.capacity ≤ n) (more : t.capacity < n) (hn : n ≤ 2 ^ 62) where
    wide : List A
    wide = resize null n t.entries

    length-wide : length wide ≡ n
    unfolding wide
    length-wide = length-resize null n t.entries

    wide_slot : (j : ℕ) → j < t.capacity → get_or wide j null ≡ get_or t.entries j null
    unfolding wide
    wide_slot j h = get_or-resize null n t.entries j (omega arith) (omega (arith, v.room))

    moved-slot :
        (i : ℕ)
        → i < t.count
        → get_or (copy_behind null t.count t.start 0 wide) (t.start + i) null ≡ slot null t i
    moved-slot i hi =
        elim (index_cases t.start i t.capacity (omega (arith, v.starts)) (omega arith) v.bounded
          (omega arith)) [
            | inl (near, e) ↦
                copy_behind_other t.count t.start 0 wide (t.start + i) (omega (arith, v.starts))
                  (inl (omega arith))
                ∙ wide_slot (t.start + i) near
                ∙ rw e
            | inr (far, e) ↦
                ap (λ k. get_or (copy_behind null t.count t.start 0 wide) k null)
                  {y = t.count + (t.start + i - t.capacity)} (omega arith)
                ∙ copy_behind_target t.count t.start 0 wide (t.start + i - t.capacity)
                    (omega (arith, v.starts)) (omega (arith, v.starts, length-wide))
                    (omega (arith, length-wide)) (omega arith) (omega arith)
                ∙ wide_slot (t.start + i - t.capacity) (omega arith)
                ∙ rw e
          ]

    grown_slot : (i : ℕ) → i < t.count → slot null (grow null n t) i ≡ slot null t i
    unfolding grow wide
    grown_slot i hi =
        let at_sum =
          index_below t.start i n (omega (arith, v.starts)) (omega arith) hn
            (omega (arith, v.starts)) in
        elim (Bool-cases (t.start == 0)) [
          | inl zero_start ↦
              let at_zero : t.start ≡ 0 = (==_iff t.start 0).0 zero_start in
              rw
                (
                  zero_start,
                  at_sum,
                  index_below t.start i t.capacity (omega arith) (omega arith) v.bounded
                      (omega arith),
                )
                (wide_slot (t.start + i) (omega arith))
          | inr other ↦ rw (other, at_sum) (moved-slot i hi)
        ]

    contents-grow : contents null (grow null n t) ≡ contents null t
    unfolding grow
    contents-grow = tabulate_ext t.count _ _ grown_slot

    length-grow : length (grow null n t).entries ≡ n
    unfolding grow wide
    length-grow = elim (Bool-cases (t.start == 0)) [
      | inl zero_start ↦ rw zero_start length-wide
      | inr other ↦ rw other (length-copy_behind t.count t.start 0 wide ∙ length-wide)
    ]

    grow-IsValid : IsValid (grow null n t)
    unfolding grow
    grow-IsValid = record {
      fits = omega arith;
      starts = omega (arith, v.starts);
      room = length-grow;
      bounded = hn;
    }

-- What an insertion may come to.
abbrev pub Inserted {ℓ} : {A : Type ℓ} → A → (ℕ → Bool) → Table A → A → Bool × Table A → Type ℓ
Inserted null can_alloc t entry (done, t') =
    ((done ≡ true) × IsValid t' × (contents null t' ≡ entry ∷ contents null t))
    ⊎ ((done ≡ false)
        × (t' ≡ t)
        × (t.count ≡ t.capacity)
        × (can_alloc (calc_grow t.capacity) ≡ false))

module _ {ℓ} {A : Type ℓ} (null : A) (can_alloc : ℕ → Bool)
    (bounded : (n : ℕ) → can_alloc n ≡ true → n ≤ 2 ^ 62) (t : Table A) (v : IsValid t)
    (entry : A) where
  insert_grown :
      t.count ≡ t.capacity
      → can_alloc (calc_grow t.capacity) ≡ true
      → IsValid (push_start null (grow null (calc_grow t.capacity) t) entry)
        × (contents null (push_start null (grow null (calc_grow t.capacity) t) entry)
            ≡ entry ∷ contents null t)
  insert_grown full granted =
      let n = calc_grow t.capacity in
      let wider : t.capacity + t.capacity ≤ n = ground (arith, v.bounded) in
      let more : t.capacity < n = ground (arith, v.bounded) in
      let hn : n ≤ 2 ^ 62 = bounded n granted in
      let valid = grow-IsValid null t v full n wider more hn in
      let space : (grow null n t).count < (grow null n t).capacity = unfold grow in omega arith in
      (
        push_start-IsValid null (grow null n t) valid space entry,
        contents-push_start null (grow null n t) valid space entry
            ∙ ap (λ l. entry ∷ l) (contents-grow null t v full n wider more hn),
      )

  insert_granted :
      leb t.capacity t.count ≡ true
      → can_alloc (calc_grow t.capacity) ≡ true
      → insert_at_start null can_alloc t entry
        ≡ (true, push_start null (grow null (calc_grow t.capacity) t) entry)
  unfolding insert_at_start
  insert_granted full granted = rw (full, granted)

  insert_refused :
      leb t.capacity t.count ≡ true
      → can_alloc (calc_grow t.capacity) ≡ false
      → insert_at_start null can_alloc t entry ≡ (false, t)
  unfolding insert_at_start
  insert_refused full refused = rw (full, refused)

  insert_space :
      leb t.capacity t.count ≡ false
      → insert_at_start null can_alloc t entry ≡ (true, push_start null t entry)
  unfolding insert_at_start
  insert_space space = rw space

  -- An insertion into a valid table either succeeds, with a valid table that holds the entry in
  -- front of the old contents, or it fails and leaves the table as it was: then the table was full
  -- and the larger array was refused.
  pub insert_at_start-Inserted :
      Inserted null can_alloc t entry (insert_at_start null can_alloc t entry)
  insert_at_start-Inserted = elim (Bool-cases (leb t.capacity t.count)) [
    | inl full ↦
        let is_full : t.count ≡ t.capacity = omega (tests, v.fits) in
        elim (Bool-cases (can_alloc (calc_grow t.capacity))) [
          | inl granted ↦
              let (valid, holds) = insert_grown is_full granted in
              rw (insert_granted full granted) (inl (refl, valid, holds))
          | inr refused ↦ rw (insert_refused full refused) (inr (refl, refl, is_full, refused))
        ]
    | inr space ↦ rw (insert_space space) (
        inl (
          refl,
          push_start-IsValid null t v (omega tests) entry,
          contents-push_start null t v (omega tests) entry,
        ))
  ]
