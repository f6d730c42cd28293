-- ===== src/Hpack/Compress/Lookup.antt =====
-- The search of the encoder in the static and the dynamic table: find_in_tables of src/http/hpack.c.
pub mod Found
use my_simple_c_http_server.Prelude.{
  ℕ, zero, suc, ◌+◌, Bool, true, false, List, Option, none, some, if◌then◌else◌, length, Outcome,
  ok, error, fault, stuck,
}
use my_simple_c_http_server.Hpack.Types.{
  Tstr, HttpHeaderField, HpackHeaderDynamicEntry, null_entry, External, StaticTableFindResult,
  all_found, key_found, not_found,
}
use my_simple_c_http_server.Hpack.DynamicTable.{size, at}
use my_simple_c_http_server.Hpack.TableState.{HpackDynamicTableState}
use my_simple_c_http_server.Hpack.Compress.{NullBuffer}

-- TableFindResult with its index, and TableFindResultType, which has none.
pub data TableFindResult : Type 0 where
  found_nothing : TableFindResult
  found_key found_all : ℕ → TableFindResult

pub data TableFindResultType : Type 0 where
  no_match key_matches all_matches : TableFindResultType

-- The entry of a HpackHeaderDynamicEntryResult, which is the null entry where that is not `ok`.
abbrev pub entry_or_null : Option HpackHeaderDynamicEntry → HpackHeaderDynamicEntry
entry_or_null none = null_entry
entry_or_null (some entry) = entry

-- Where nothing better is known so far, a key at `index`.
abbrev pub better : TableFindResult → ℕ → TableFindResult
better found_nothing index = found_key index
better (found_key i) index = found_key i
better (found_all i) index = found_all i

abbrev pub of_static : StaticTableFindResult → TableFindResult
of_static (all_found i) = found_all i
of_static (key_found i) = found_key i
of_static not_found = found_nothing

module _ (ext : External) where
  open ext use {static_table, tstr_eq, find_in_static_table_fast}

  pub table_entry_matches : HttpHeaderField → Tstr → Tstr → TableFindResultType
  table_entry_matches field entry_key none =
      if tstr_eq field.key entry_key then key_matches else no_match
  table_entry_matches field entry_key (some entry_value) =
      if tstr_eq field.key entry_key
      then (if tstr_eq field.value (some entry_value) then all_matches else key_matches)
      else no_match

  abbrev pub table_entry_matches_dynamic :
      HttpHeaderField → HpackHeaderDynamicEntry → TableFindResultType
  table_entry_matches_dynamic field entry = table_entry_matches field entry.key entry.value

  -- The loop over the dynamic table, from `i` on.
  pub find_in_dynamic :
      HttpHeaderField
      → HpackDynamicTableState
      → ℕ
      → ℕ
      → TableFindResult
      → Outcome NullBuffer TableFindResult
  find_in_dynamic field state zero i result = ok result
  find_in_dynamic field state (suc left) i result =
      let index = i + 1 + length static_table in
      let entry = entry_or_null (at null_entry state.dynamic_table i) in
      elim (table_entry_matches_dynamic field entry) [
        | all_matches ↦ ok (found_all index)
        | key_matches ↦ find_in_dynamic field state left (suc i) (better result index)
        | no_match ↦ find_in_dynamic field state left (suc i) result
      ]

  -- Behind a whole match in the static table nothing is searched.
  pub find_in_tables :
      HttpHeaderField → HpackDynamicTableState → Bool → Outcome NullBuffer TableFindResult
  find_in_tables field state use_all_tables = elim (find_in_static_table_fast field) [
    | all_found i ↦ ok (found_all i)
    | other ↦
        if use_all_tables
        then find_in_dynamic field state (size state.dynamic_table) 0 (of_static other)
        else ok (of_static other)
  ]
