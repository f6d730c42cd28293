-- ===== src/Hpack/DynamicTable/Pop.antt =====
-- hpack_dynamic_table_pop_at_end and hpack_dynamic_table_at of src/http/dynamic_hpack_table.c, on the
-- contents of a table.
use my_simple_c_http_server.Prelude.{
  leb-false, ℕ, zero, suc, ◌+◌, ◌-◌, ◌/◌, ◌%◌, ◌<◌, ◌≡◌, refl, ◌∙◌, sym, ◌⊎◌, inl, inr, ap, arith,
  u64, [], ◌∷◌, ◌++◌, Option, none, some, get_or, get_elem?, ltb, ◌==◌, tabulate, tabulate-suc,
  get_elem?-tabulate, Bool-cases, tests, true, false,
}
use mathlib.Core.Path.{ap₂}
use my_simple_c_http_server.Hpack.DynamicTable.{
  Table, IsValid, slot, contents, at, shrink, pop_at_end, drop_last, pred_size, should_shrink,
  calc_shrink, start_size,
}
use my_simple_c_http_server.Hpack.DynamicTable.Shrink.{contents-shrink, shrink-IsValid}

Nat-cases : (n : ℕ) → (n ≡ 0) ⊎ ((k : ℕ) × (n ≡ suc k))
Nat-cases zero = inl refl
Nat-cases (suc k) = inr (k, refl)

-- What a pop may come to.
abbrev pub Popped {ℓ} : {A : Type ℓ} → A → Table A → Option (A × Table A) → Type ℓ
Popped null t none = contents null t ≡ []
Popped null t (some (entry, t')) =
    IsValid t' × (contents null t ≡ contents null t' ++ entry ∷ []) × (t.count ≡ suc t'.count)

module _ {ℓ} {A : Type ℓ} (null : A) (t : Table A) where
  -- hpack_dynamic_table_at reads the contents, and answers not ok exactly out of their range.
  pub at-contents : (i : ℕ) → at null t i ≡ get_elem? (contents null t) i
  unfolding at
  at-contents i = rw get_elem?-tabulate (ground arith)

  pub at-some : (i : ℕ) → i < t.count → at null t i ≡ some (slot null t i)
  unfolding at
  at-some i h = rw (leb-false t.count i h)

  module _ (v : IsValid t) (n : ℕ) (e : t.count ≡ suc n) where
    rest : Table A
    rest = drop_last t

    last_entry : A
    last_entry = get_or t.entries (pred_size (u64 (t.start + t.count)) % t.capacity) null

    rest_count : rest.count ≡ n
    unfolding rest
    rest_count = omega arith

    rest-IsValid : IsValid rest
    unfolding rest
    rest-IsValid = record {
      fits = omega (arith, v.fits);
      starts = v.starts;
      room = v.room;
      bounded = v.bounded;
    }

    last_index : pred_size (u64 (t.start + t.count)) ≡ u64 (t.start + n)
    last_index = omega (arith, v.fits, v.starts, v.bounded)

    contents-rest : contents null t ≡ contents null rest ++ last_entry ∷ []
    unfolding rest last_entry
    contents-rest =
        ap (λ k. tabulate k (slot null t)) e
        ∙ tabulate-suc n (slot null t)
        ∙ ap₂ (λ k x. tabulate k (slot null t) ++ get_or t.entries (x % t.capacity) null ∷ [])
            {x = n} {y = t.count - 1} {u = u64 (t.start + n)} (omega arith) (sym last_index)

    kept-Popped : Popped null t (some (last_entry, rest))
    kept-Popped = (rest-IsValid, contents-rest, e ∙ ap suc (sym rest_count))

    shrunk-Popped :
        ltb rest.count (t.capacity / 4) ≡ true
        → Popped null t (some (last_entry, shrink null (t.capacity / 2) rest))
    unfolding rest shrink
    shrunk-Popped small = (
      shrink-IsValid null rest rest-IsValid (omega tests),
      contents-rest
          ∙ ap (λ l. l ++ last_entry ∷ [])
              (sym (contents-shrink null rest rest-IsValid (omega tests))),
      omega arith,
    )

    count_ne_zero : (t.count == 0) ≡ false
    count_ne_zero = ground arith

    taken-Popped : Popped null t (pop_at_end null t)
    unfolding pop_at_end rest last_entry
    taken-Popped = rw (count_ne_zero) (elim (Bool-cases (should_shrink (t.count - 1) t.capacity)) [
      | inl small ↦ rw small (elim (Bool-cases (ltb (calc_shrink t.capacity) start_size)) [
        | inl short ↦ rw short kept-Popped
        | inr long ↦ rw long (shrunk-Popped small)
      ])
      | inr large ↦ rw large kept-Popped
    ])

  -- On a valid table a pop answers not ok exactly if the table is empty. Otherwise it takes the last
  -- entry off the contents and leaves a valid table, also when it shrinks the array.
  pub pop_at_end-Popped : IsValid t → Popped null t (pop_at_end null t)
  unfolding pop_at_end
  pop_at_end-Popped v = elim (Nat-cases t.count) [ inl e ↦ rw e | inr (n, e) ↦ taken-Popped v n e ]
