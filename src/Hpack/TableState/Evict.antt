-- ===== src/Hpack/TableState/Evict.antt =====
-- The eviction loops of src/http/hpack.c.
use my_simple_c_http_server.Prelude.{
  ℕ, zero, suc, ◌+◌, ◌^◌, ◌≤◌, ◌<◌, ◌≡◌, refl, ◌∙◌, sym, ap, Bool, true, false, [], none, some, ltb,
  ltb→lt, ltb_false→le, ◌≢◌, arith, Bool-cases, Option-cases, inl, inr,
}
use native.Mathlib.Nat.{le_trans}
use my_simple_c_http_server.Hpack.Types.{HpackHeaderDynamicEntry, null_entry}
use my_simple_c_http_server.Hpack.DynamicTable.{Table, IsValid, contents, pop_at_end}
use my_simple_c_http_server.Hpack.DynamicTable.Pop.{Popped, pop_at_end-Popped}
use my_simple_c_http_server.Hpack.TableState.{
  HpackDynamicTableState, evict_while, entries_of, total_size, get_dynamic_entry_size, sub_size,
}
use my_simple_c_http_server.Hpack.TableState.Fit.{fit, fit_all, fit-append, total_size-append}

-- What holds throughout a loop: the maximum may be exceeded.
pub record IsCounted (state : HpackDynamicTableState) : Type 0 where
  pub table : IsValid state.dynamic_table
  pub counted : state.current_dynamic_table_byte_size ≡ total_size (entries_of state)
  pub bounded : state.current_dynamic_table_byte_size < 2 ^ 63

-- The state that a loop with a limit leaves.
pub record IsEvicted (limit : ℕ) (state result : HpackDynamicTableState) : Type 0 where
  pub counts : IsCounted result
  pub same_max : result.max_dynamic_table_byte_size ≡ state.max_dynamic_table_byte_size
  pub kept : entries_of result ≡ fit limit (entries_of state)

abbrev popped_state :
    HpackDynamicTableState
    → HpackHeaderDynamicEntry
    → Table HpackHeaderDynamicEntry
    → HpackDynamicTableState
popped_state state entry table = record state {
  dynamic_table = table;
  current_dynamic_table_byte_size =
      sub_size state.current_dynamic_table_byte_size (get_dynamic_entry_size entry);
}

-- One round of the loop, on each of its branches.
module _ (over : HpackDynamicTableState → Bool) (fuel : ℕ) (state : HpackDynamicTableState) where
  evict_done : over state ≡ false → evict_while over (suc fuel) state ≡ some state
  unfolding evict_while
  evict_done e = rw (e, evict_while)

  evict_more :
      (entry : HpackHeaderDynamicEntry) (table : Table HpackHeaderDynamicEntry)
      → over state ≡ true
      → pop_at_end null_entry state.dynamic_table ≡ some (entry, table)
      → evict_while over (suc fuel) state ≡ evict_while over fuel (popped_state state entry table)
  unfolding evict_while
  evict_more entry table e p = rw (e, evict_while) (rw (p, evict_while))

-- A pop takes the size of the entry off the count.
popped_state-IsCounted :
    (state : HpackDynamicTableState) (entry : HpackHeaderDynamicEntry)
    (table : Table HpackHeaderDynamicEntry)
    → IsCounted state
    → Popped null_entry state.dynamic_table (some (entry, table))
    → IsCounted (popped_state state entry table)
      × (sub_size state.current_dynamic_table_byte_size (get_dynamic_entry_size entry)
          ≤ state.current_dynamic_table_byte_size)
popped_state-IsCounted state entry table c (valid, holds, fewer) = (
  record { table = valid; counted = less; bounded = omega (arith, c.bounded, less, sizes) },
  omega (arith, less, sizes),
)
  where
    sizes :
        state.current_dynamic_table_byte_size
        ≡ total_size (contents null_entry table) + get_dynamic_entry_size entry
    sizes = c.counted ∙ ap total_size holds ∙ total_size-append (contents null_entry table) entry

    less :
        sub_size state.current_dynamic_table_byte_size (get_dynamic_entry_size entry)
        ≡ total_size (contents null_entry table)
    less = omega (arith, c.bounded, sizes)

module _ (over : HpackDynamicTableState → Bool) (limit : ℕ) where
  -- On every state that the loop comes to, its test is whether the size is above the limit.
  abbrev pub TestsLimit : HpackDynamicTableState → Type 0
  TestsLimit state =
      (s : HpackDynamicTableState)
      → s.max_dynamic_table_byte_size ≡ state.max_dynamic_table_byte_size
      → s.current_dynamic_table_byte_size ≤ state.current_dynamic_table_byte_size
      → over s ≡ ltb limit s.current_dynamic_table_byte_size

  stops :
      (state : HpackDynamicTableState)
      → IsCounted state
      → state.current_dynamic_table_byte_size ≤ limit
      → IsEvicted limit state state
  stops state c small = record {
    counts = c;
    same_max = refl;
    kept = sym (fit_all limit (entries_of state) (omega (arith, c.counted)));
  }

  -- A state that is over the limit has an entry to pop.
  has_entry :
      (state : HpackDynamicTableState)
      → IsCounted state
      → limit < state.current_dynamic_table_byte_size
      → pop_at_end null_entry state.dynamic_table ≢ none
  has_entry state c large e =
      let none_left : entries_of state ≡ [] =
        rw e at (pop_at_end-Popped null_entry state.dynamic_table c.table) in
      absurd (omega (arith, c.counted, ap total_size none_left))

  further-IsEvicted :
      (state result : HpackDynamicTableState) (entry : HpackHeaderDynamicEntry)
      (table : Table HpackHeaderDynamicEntry)
      → limit < state.current_dynamic_table_byte_size
      → IsCounted state
      → Popped null_entry state.dynamic_table (some (entry, table))
      → IsEvicted limit (popped_state state entry table) result
      → IsEvicted limit state result
  further-IsEvicted state result entry table large c (valid, holds, fewer) evicted = record {
    counts = evicted.counts;
    same_max = evicted.same_max;
    kept =
        evicted.kept
        ∙ sym (
            ap (fit limit) holds
            ∙ fit-append limit (contents null_entry table) entry
                (omega (arith, c.counted, ap total_size holds, large)));
  }

  -- An eviction loop whose test is whether the size is above a limit ends, with fuel for one round
  -- more than the table has entries, from a valid table with the right byte count. What it leaves is
  -- such a table again, with the same maximum, and holds the longest prefix of the entries that is
  -- within the limit.
  pub evict_while-IsEvicted :
      (fuel : ℕ) (state : HpackDynamicTableState)
      → state.dynamic_table.count < fuel
      → IsCounted state
      → TestsLimit state
      → (result : HpackDynamicTableState) × (evict_while over fuel state ≡ some result)
        × IsEvicted limit state result
  evict_while-IsEvicted zero state h c test = absurd (omega arith)
  evict_while-IsEvicted (suc fuel) state h c test = elim (Bool-cases (over state)) [
    | inr done ↦ (
      state,
      evict_done over fuel state done,
      stops state c (
          ltb_false→le limit state.current_dynamic_table_byte_size
            (sym (test state refl (omega arith)) ∙ done)),
    )
    | inl more ↦
        let large : limit < state.current_dynamic_table_byte_size =
          ltb→lt limit state.current_dynamic_table_byte_size
            (sym (test state refl (omega arith)) ∙ more) in
        elim (Option-cases (pop_at_end null_entry state.dynamic_table)) [
          | inl empty ↦ absurd (has_entry state c large empty)
          | inr ((entry, table), p) ↦
              let popped : Popped null_entry state.dynamic_table (some (entry, table)) =
                rw p at (pop_at_end-Popped null_entry state.dynamic_table c.table) in
              let (counts, fewer) = popped_state-IsCounted state entry table c popped in
              let (result, runs, evicted) =
                evict_while-IsEvicted fuel (popped_state state entry table)
                  (omega (arith, popped.2)) counts (λ s same le. test s same (le_trans le fewer)) in
              (
                result,
                evict_more over fuel state entry table more p ∙ runs,
                further-IsEvicted state result entry table large c popped evicted,
              )
        ]
  ]
