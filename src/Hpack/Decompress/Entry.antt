-- ===== src/Hpack/Decompress/Entry.antt =====
-- hpack_get_table_entry_at of src/http/hpack.c, by the table that an index falls in.
use my_simple_c_http_server.Prelude.{
  ℕ, ◌+◌, ◌-◌, ◌≤◌, ◌<◌, ◌≡◌, some, leb-false, le→leb, arith, length, get_elem?, ok,
}
use my_simple_c_http_server.Hpack.Types.{HpackHeaderDynamicEntry, null_entry, External}
use my_simple_c_http_server.Hpack.DynamicTable.{at}
use my_simple_c_http_server.Hpack.TableState.{HpackDynamicTableState}
use my_simple_c_http_server.Hpack.Decompress.{hpack_get_table_entry_at}
use my_simple_c_http_server.Hpack.Decompress.Literal.{nonzero}

module _ (ext : External) where
  open ext use {static_table}

  module _ (state : HpackDynamicTableState) where
    pub static_entry :
        (i : ℕ) (entry : HpackHeaderDynamicEntry)
        → 0 < i
        → i ≤ length static_table
        → get_elem? static_table (i - 1) ≡ some entry
        → hpack_get_table_entry_at ext state i ≡ ok entry
    unfolding hpack_get_table_entry_at
    static_entry i entry pos low found =
        rw (nonzero i pos, le→leb i (length static_table) low, found)

    pub dynamic_entry :
        (i : ℕ) (entry : HpackHeaderDynamicEntry)
        → i < state.dynamic_table.count
        → at null_entry state.dynamic_table i ≡ some entry
        → hpack_get_table_entry_at ext state (i + 1 + length static_table) ≡ ok entry
    unfolding hpack_get_table_entry_at
    dynamic_entry i entry low found =
        let index : i + 1 + length static_table - length static_table - 1 ≡ i = omega arith in
        rw (
          nonzero (i + 1 + length static_table) (omega arith),
          index,
          leb-false (i + 1 + length static_table) (length static_table) (omega arith),
          leb-false state.dynamic_table.count i low,
          found,
        )
