-- ===== src/Hpack/TableState/Count.antt =====
-- The number of entries that insert_entry_into_dynamic_table of src/http/hpack.c leaves.
use my_simple_c_http_server.Prelude.{
  ℕ, suc, ◌-◌, ◌^◌, ◌≤◌, ◌≡◌, ap, inl, inr, Bool, true, some, arith, length, length-tabulate,
}
use my_simple_c_http_server.Hpack.Types.{HpackHeaderDynamicEntry, null_entry}
use my_simple_c_http_server.Hpack.DynamicTable.{slot}
use my_simple_c_http_server.Hpack.TableState.{
  HpackDynamicTableState, IsSized, entries_of, get_dynamic_entry_size,
  insert_entry_into_dynamic_table,
}
use my_simple_c_http_server.Hpack.TableState.Fit.{length-fit}
use my_simple_c_http_server.Hpack.TableState.Insert.{
  length-table_insertion, insert_entry-InsertedEntry,
}

length-entries_of :
    (state : HpackDynamicTableState) → length (entries_of state) ≡ state.dynamic_table.count
length-entries_of state =
    length-tabulate state.dynamic_table.count (slot null_entry state.dynamic_table)

module _ (can_alloc : ℕ → Bool) (alloc_bounded : (n : ℕ) → can_alloc n ≡ true → n ≤ 2 ^ 62)
    (entry : HpackHeaderDynamicEntry) (state : HpackDynamicTableState) (sized : IsSized state) where
  pub insert_entry-count :
      (result : HpackDynamicTableState) × (insert_entry_into_dynamic_table can_alloc state entry
        ≡ some result)
      × IsSized result
      × (result.dynamic_table.count ≤ suc state.dynamic_table.count)
  insert_entry-count =
      let max = state.max_dynamic_table_byte_size in
      let es = entries_of state in
      let (result, runs, (sized', _, kept)) =
        insert_entry-InsertedEntry can_alloc alloc_bounded entry state sized in
      (
        result,
        runs,
        sized',
        elim kept [
          | inl e ↦ omega (
            arith,
            ap length e,
            length-table_insertion max entry es,
            length-entries_of state,
            length-entries_of result,
          )
          | inr (_, _, _, _, _, e) ↦ omega (
            arith,
            ap length e,
            length-fit (max - get_dynamic_entry_size entry) es,
            length-entries_of state,
            length-entries_of result,
          )
        ],
      )
