-- ===== src/Hpack/TableState.antt =====
-- The dynamic table with its byte sizes: HpackDynamicTableState, insert_entry_into_dynamic_table and
-- dynamic_table_evict_entries_on_table_change of src/http/hpack.c.
mod Fit
pub mod Evict
pub mod Insert
pub mod Count
use my_simple_c_http_server.Prelude.{
  ℕ, zero, suc, ◌+◌, ◌-◌, ◌%◌, ◌^◌, ◌≤◌, ◌<◌, ◌≡◌, Bool, true, false, List, [], ◌∷◌, Option, none,
  some, ltb, ◌==◌, if◌then◌else◌, u64,
}
use my_simple_c_http_server.Hpack.Types.{Tstr, tstr_len, HpackHeaderDynamicEntry, null_entry}
use my_simple_c_http_server.Hpack.DynamicTable.{
  Table, IsValid, contents, free, get_empty, insert_at_start, pop_at_end,
}

pub record HpackDynamicTableState : Type 0 where
  pub dynamic_table : Table HpackHeaderDynamicEntry
  pub max_dynamic_table_byte_size : ℕ
  pub current_dynamic_table_byte_size : ℕ

-- `get_default_hpack_dynamic_table_state`
abbrev pub get_default_hpack_dynamic_table_state : ℕ → HpackDynamicTableState
get_default_hpack_dynamic_table_state max = record {
  dynamic_table = get_empty;
  max_dynamic_table_byte_size = max;
  current_dynamic_table_byte_size = 0;
}

unfoldable pub get_dynamic_entry_size : HpackHeaderDynamicEntry → ℕ
get_dynamic_entry_size entry = u64 (u64 (tstr_len entry.key + tstr_len entry.value) + 32)

-- `size_t` subtraction
abbrev pub sub_size : ℕ → ℕ → ℕ
sub_size a b = (a + 2 ^ 64 - b) % 2 ^ 64

-- The bodies of the two `while` loops, which differ in their test alone. `none` means that the fuel
-- ran out.
pub evict_while :
    (HpackDynamicTableState → Bool) → ℕ → HpackDynamicTableState → Option HpackDynamicTableState
evict_while over zero state = none
evict_while over (suc fuel) state = elim (over state) [
  | false ↦ some state
  | true ↦ elim (pop_at_end null_entry state.dynamic_table) [
    | none ↦ some state
    | some (entry, table) ↦ evict_while over fuel (record state {
      dynamic_table = table;
      current_dynamic_table_byte_size =
          sub_size state.current_dynamic_table_byte_size (get_dynamic_entry_size entry);
    })
  ]
]

-- `state->current_dynamic_table_byte_size + new_size > state->max_dynamic_table_byte_size`
abbrev pub over_with : ℕ → HpackDynamicTableState → Bool
over_with new_size state =
    ltb state.max_dynamic_table_byte_size (u64 (state.current_dynamic_table_byte_size + new_size))

-- `state->current_dynamic_table_byte_size > state->max_dynamic_table_byte_size`
abbrev pub over_max : HpackDynamicTableState → Bool
over_max state = ltb state.max_dynamic_table_byte_size state.current_dynamic_table_byte_size

-- Each round takes an entry off the table.
abbrev pub rounds : HpackDynamicTableState → ℕ
rounds state = suc state.dynamic_table.count

abbrev pub emptied : HpackDynamicTableState → HpackDynamicTableState
emptied state = record state {
  dynamic_table = free state.dynamic_table;
  current_dynamic_table_byte_size = 0;
}

-- What is done with the result of hpack_dynamic_table_insert_at_start: a refused allocation leaves
-- the table without the entry.
pub place_entry :
    HpackHeaderDynamicEntry
    → HpackDynamicTableState
    → Bool × Table HpackHeaderDynamicEntry
    → HpackDynamicTableState
place_entry new_entry state (true, table) = record state {
  dynamic_table = table;
  current_dynamic_table_byte_size =
      u64 (state.current_dynamic_table_byte_size + get_dynamic_entry_size new_entry);
}
place_entry new_entry state (false, table) = record state { dynamic_table = table }

abbrev pub insert_fitting :
    (ℕ → Bool) → HpackHeaderDynamicEntry → HpackDynamicTableState → HpackDynamicTableState
insert_fitting can_alloc new_entry state =
    place_entry new_entry state (insert_at_start null_entry can_alloc state.dynamic_table new_entry)

pub insert_entry_into_dynamic_table :
    (ℕ → Bool) → HpackDynamicTableState → HpackHeaderDynamicEntry → Option HpackDynamicTableState
insert_entry_into_dynamic_table can_alloc state new_entry =
    let new_size = get_dynamic_entry_size new_entry in
    if ltb state.max_dynamic_table_byte_size new_size
    then some (emptied state)
    else elim (evict_while (over_with new_size) (rounds state) state) [
      | none ↦ none
      | some fitting ↦ some (insert_fitting can_alloc new_entry fitting)
    ]

pub dynamic_table_evict_entries_on_table_change :
    HpackDynamicTableState → Option HpackDynamicTableState
dynamic_table_evict_entries_on_table_change state =
    if state.max_dynamic_table_byte_size == 0
    then some (emptied state)
    else evict_while over_max (rounds state) state

-- `set_hpack_decompress_state_setting` and `set_hpack_compress_state_setting`, on the table state
-- that is all either state holds.
pub set_hpack_state_setting : HpackDynamicTableState → ℕ → Option HpackDynamicTableState
set_hpack_state_setting state max =
    dynamic_table_evict_entries_on_table_change (record state { max_dynamic_table_byte_size = max })

abbrev pub entries_of : HpackDynamicTableState → List HpackHeaderDynamicEntry
entries_of state = contents null_entry state.dynamic_table

-- The sum of the sizes of some entries.
abbrev pub total_size : List HpackHeaderDynamicEntry → ℕ
total_size [] = 0
total_size (e ∷ es) = get_dynamic_entry_size e + total_size es

-- The table is valid, and the byte count is the size of its entries and no more than the maximum.
pub record IsSized (state : HpackDynamicTableState) : Type 0 where
  pub table : IsValid state.dynamic_table
  pub counted : state.current_dynamic_table_byte_size ≡ total_size (entries_of state)
  pub within : state.current_dynamic_table_byte_size ≤ state.max_dynamic_table_byte_size
  pub bounded : state.max_dynamic_table_byte_size < 2 ^ 63
