-- ===== src/Hpack/TableState/Insert.antt =====
-- insert_entry_into_dynamic_table and the change of the maximum, against RFC 7541.
use my_simple_c_http_server.Prelude.{
  ℕ, length, suc, ◌+◌, ◌-◌, ◌^◌, ◌≤◌, ◌<◌, ◌≡◌, refl, ◌∙◌, ap, ◌⊎◌, Bool, true, false, List, [],
  ◌∷◌, some, ltb, if◌then◌else◌, arith, Bool-cases, inl, inr, tests, ◌==◌,
}
use my_simple_c_http_server.Hpack.Types.{HpackHeaderDynamicEntry, null_entry}
use my_simple_c_http_server.Hpack.DynamicTable.{Table, insert_at_start, calc_grow}
use my_simple_c_http_server.Hpack.DynamicTable.Insert.{Inserted, insert_at_start-Inserted}
use my_simple_c_http_server.Hpack.TableState.{
  HpackDynamicTableState, IsSized, evict_while, entries_of, total_size, get_dynamic_entry_size,
  over_with, over_max, rounds, emptied, place_entry, insert_fitting,
  insert_entry_into_dynamic_table, dynamic_table_evict_entries_on_table_change,
  set_hpack_state_setting,
}
use my_simple_c_http_server.Hpack.TableState.Fit.{fit, length-fit, total_size-fit}
use my_simple_c_http_server.Hpack.TableState.Evict.{IsCounted, IsEvicted, evict_while-IsEvicted}

-- RFC 7541, 4.4: entries are evicted from the end until the new one fits in front; an entry larger
-- than the maximum empties the table.
pub table_insertion :
    ℕ → HpackHeaderDynamicEntry → List HpackHeaderDynamicEntry → List HpackHeaderDynamicEntry
table_insertion max entry entries =
    if ltb max (get_dynamic_entry_size entry)
    then []
    else entry ∷ fit (max - get_dynamic_entry_size entry) entries

pub length-table_insertion :
    (max : ℕ) (entry : HpackHeaderDynamicEntry) (es : List HpackHeaderDynamicEntry)
    → length (table_insertion max entry es) ≤ suc (length es)
unfolding table_insertion
length-table_insertion max entry es =
    ground (arith, length-fit (max - get_dynamic_entry_size entry) es)

emptied-IsSized :
    (state : HpackDynamicTableState)
    → state.max_dynamic_table_byte_size < 2 ^ 63
    → IsSized (emptied state)
emptied-IsSized state h = record {
  table = record { fits = omega arith; starts = omega arith; room = refl; bounded = omega arith };
  counted = refl;
  within = omega arith;
  bounded = h;
}

module _ (can_alloc : ℕ → Bool) (alloc_bounded : (n : ℕ) → can_alloc n ≡ true → n ≤ 2 ^ 62)
    (entry : HpackHeaderDynamicEntry) (state : HpackDynamicTableState) (sized : IsSized state) where
  new_size : ℕ
  new_size = get_dynamic_entry_size entry

  -- The state in which the entry is put: it fits.
  module _ (fitting : HpackDynamicTableState) (fits : new_size ≤ state.max_dynamic_table_byte_size)
      (ev : IsEvicted (state.max_dynamic_table_byte_size - new_size) state fitting) where
    small : total_size (entries_of fitting) + new_size ≤ state.max_dynamic_table_byte_size
    small = omega (
      arith,
      ap total_size ev.kept,
      total_size-fit (state.max_dynamic_table_byte_size - new_size) (entries_of state),
    )

    abbrev Fitted : HpackDynamicTableState → Type 0
    Fitted result =
        IsSized result
        × (result.max_dynamic_table_byte_size ≡ state.max_dynamic_table_byte_size)
        × ((entries_of result
              ≡ entry ∷ fit (state.max_dynamic_table_byte_size - new_size) (entries_of state))
            ⊎ ((fitting.dynamic_table.count ≡ fitting.dynamic_table.capacity)
                × (can_alloc (calc_grow fitting.dynamic_table.capacity) ≡ false)
                × (result ≡ fitting)
                × (entries_of result
                    ≡ fit (state.max_dynamic_table_byte_size - new_size) (entries_of state))))

    fitting_max : fitting.max_dynamic_table_byte_size ≡ state.max_dynamic_table_byte_size
    fitting_max = ev.same_max

    place_entry-Fitted :
        (r : Bool × Table HpackHeaderDynamicEntry)
        → Inserted null_entry can_alloc fitting.dynamic_table entry r
        → Fitted (place_entry entry fitting r)
    unfolding place_entry new_size
    place_entry-Fitted (true, table) (inl (_, valid, holds)) = (
      record {
        table = valid;
        counted = omega (arith, small, sized.bounded, ev.counts.counted, ap total_size holds);
        within = omega (arith, small, sized.bounded, ev.counts.counted, fitting_max);
        bounded = omega (arith, fitting_max, sized.bounded);
      },
      fitting_max,
      inl (holds ∙ ap (λ l. entry ∷ l) ev.kept),
    )
    place_entry-Fitted (true, table) (inr (no_done, _, _, _)) = cc
    place_entry-Fitted (false, table) (inl (no_done, _, _)) = cc
    place_entry-Fitted (false, table) (inr (_, same, full, refused)) = (
      record {
        table = rw same ev.counts.table;
        counted = rw same ev.counts.counted;
        within = omega (arith, small, ev.counts.counted, fitting_max);
        bounded = omega (arith, fitting_max, sized.bounded);
      },
      fitting_max,
      inr (full, refused, ap (λ t. record fitting { dynamic_table = t }) same, rw same ev.kept),
    )

  -- What the insertion may come to: the table of RFC 7541; or, where the state after the eviction has
  -- a full array and the allocator refuses the larger one that it asks for, that state.
  abbrev pub InsertedEntry : HpackDynamicTableState → Type 0
  InsertedEntry result =
      IsSized result
      × (result.max_dynamic_table_byte_size ≡ state.max_dynamic_table_byte_size)
      × ((entries_of result
            ≡ table_insertion state.max_dynamic_table_byte_size entry (entries_of state))
          ⊎ ((fitting : HpackDynamicTableState) × (evict_while
                  (over_with (get_dynamic_entry_size entry)) (rounds state) state
                ≡ some fitting)
              × (fitting.dynamic_table.count ≡ fitting.dynamic_table.capacity)
              × (can_alloc (calc_grow fitting.dynamic_table.capacity) ≡ false)
              × (result ≡ fitting)
              × (entries_of result
                  ≡ fit (state.max_dynamic_table_byte_size - get_dynamic_entry_size entry)
                      (entries_of state))))

  state-IsCounted : IsCounted state
  state-IsCounted = record {
    table = sized.table;
    counted = sized.counted;
    bounded = omega (arith, sized.within, sized.bounded);
  }

  tests_size :
      new_size ≤ state.max_dynamic_table_byte_size
      → (s : HpackDynamicTableState)
      → s.max_dynamic_table_byte_size ≡ state.max_dynamic_table_byte_size
      → s.current_dynamic_table_byte_size ≤ state.current_dynamic_table_byte_size
      → over_with new_size s
        ≡ ltb (state.max_dynamic_table_byte_size - new_size) s.current_dynamic_table_byte_size
  tests_size fits s same le = ground (arith, sized.within, sized.bounded)

  insert_large :
      ltb state.max_dynamic_table_byte_size new_size ≡ true
      → insert_entry_into_dynamic_table can_alloc state entry ≡ some (emptied state)
  unfolding insert_entry_into_dynamic_table new_size
  insert_large large = rw large

  insert_small :
      (fitting : HpackDynamicTableState)
      → ltb state.max_dynamic_table_byte_size new_size ≡ false
      → evict_while (over_with new_size) (rounds state) state ≡ some fitting
      → insert_entry_into_dynamic_table can_alloc state entry
        ≡ some (insert_fitting can_alloc entry fitting)
  unfolding insert_entry_into_dynamic_table new_size
  insert_small fitting small runs = rw (small, runs)

  inserted_small :
      (fitting result : HpackDynamicTableState)
      (small : ltb state.max_dynamic_table_byte_size new_size ≡ false)
      (ev : IsEvicted (state.max_dynamic_table_byte_size - new_size) state fitting)
      → evict_while (over_with new_size) (rounds state) state ≡ some fitting
      → Fitted fitting (omega tests) ev result
      → InsertedEntry result
  unfolding table_insertion new_size
  inserted_small fitting result small ev runs (s, m, inl e) = (s, m, inl (rw small e))
  inserted_small fitting result small ev runs (s, m, inr (full, refused, same, e)) =
      (s, m, inr (fitting, runs, full, refused, same, e))

  inserted_large :
      ltb state.max_dynamic_table_byte_size new_size ≡ true → InsertedEntry (emptied state)
  unfolding table_insertion new_size
  inserted_large large = (emptied-IsSized state sized.bounded, refl, inl (rw large))

  -- On a sized state the insertion ends, keeps the state sized and its maximum, and makes the table
  -- that RFC 7541 describes. Only where the array is full after the eviction and the allocator refuses
  -- the larger one that the table grows to, the result is the state after the eviction. The allocator
  -- grants at most 2 ^ 62 entries.
  pub insert_entry-InsertedEntry :
      (result : HpackDynamicTableState) × (insert_entry_into_dynamic_table can_alloc state entry
        ≡ some result)
      × InsertedEntry result
  insert_entry-InsertedEntry = elim (Bool-cases (ltb state.max_dynamic_table_byte_size new_size)) [
    | inl large ↦ (emptied state, insert_large large, inserted_large large)
    | inr fits ↦
        let (fitting, runs, ev) =
          evict_while-IsEvicted (over_with new_size) (state.max_dynamic_table_byte_size - new_size)
            (rounds state) state (omega arith) state-IsCounted (tests_size (omega tests)) in
        (
          insert_fitting can_alloc entry fitting,
          insert_small fitting fits runs,
          inserted_small fitting _ fits ev runs (
              place_entry-Fitted fitting (omega tests) ev
                (insert_at_start null_entry can_alloc fitting.dynamic_table entry)
                (insert_at_start-Inserted null_entry can_alloc alloc_bounded fitting.dynamic_table
                  ev.counts.table entry)),
        )
  ]

-- What a change of the maximum leaves: all of the entries that fit the new maximum.
abbrev pub Resized : HpackDynamicTableState → ℕ → HpackDynamicTableState → Type 0
Resized state max result =
    IsSized result
    × (result.max_dynamic_table_byte_size ≡ max)
    × (entries_of result ≡ (if max == 0 then [] else fit max (entries_of state)))

module _ (state : HpackDynamicTableState) (sized : IsSized state) (max : ℕ) (h : max < 2 ^ 63) where
  resized : HpackDynamicTableState
  resized = record state { max_dynamic_table_byte_size = max }

  resized-IsCounted : IsCounted resized
  unfolding resized
  resized-IsCounted = record {
    table = sized.table;
    counted = sized.counted;
    bounded = omega (arith, sized.within, sized.bounded);
  }

  resized-Resized :
      (result : HpackDynamicTableState)
      → (max == 0) ≡ false
      → IsEvicted max resized result
      → Resized state max result
  unfolding resized
  resized-Resized result pos ev = (
    record {
      table = ev.counts.table;
      counted = ev.counts.counted;
      within = omega (
        arith,
        ev.same_max,
        ev.counts.counted,
        ap total_size ev.kept,
        total_size-fit max (entries_of state),
      );
      bounded = omega (arith, ev.same_max, h);
    },
    ev.same_max,
    rw pos ev.kept,
  )

  set_zero : (max == 0) ≡ true → set_hpack_state_setting state max ≡ some (emptied resized)
  unfolding set_hpack_state_setting dynamic_table_evict_entries_on_table_change resized
  set_zero e = rw e

  set_positive :
      (max == 0) ≡ false
      → set_hpack_state_setting state max ≡ evict_while over_max (rounds resized) resized
  unfolding set_hpack_state_setting dynamic_table_evict_entries_on_table_change resized
  set_positive e = rw e

  emptied-Resized : (max == 0) ≡ true → Resized state max (emptied resized)
  unfolding resized
  emptied-Resized e = (emptied-IsSized resized h, refl, rw e)

  -- A change of the maximum ends, leaves a sized state with the new maximum, and evicts from the end
  -- no more entries than it must; at the maximum 0 the table is empty.
  pub set_hpack_state_setting-Resized :
      (result : HpackDynamicTableState) × (set_hpack_state_setting state max ≡ some result)
      × Resized state max result
  unfolding resized
  set_hpack_state_setting-Resized = elim (Bool-cases (max == 0)) [
    | inl e ↦ (emptied resized, set_zero e, emptied-Resized e)
    | inr e ↦
        let (result, runs, ev) =
          evict_while-IsEvicted over_max max (rounds resized) resized (omega arith)
            resized-IsCounted
            (λ s same le. ap (λ m. ltb m s.current_dynamic_table_byte_size) same) in
        (result, set_positive e ∙ runs, resized-Resized result e ev)
  ]
