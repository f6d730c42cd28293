-- ===== src/Hpack/Tests/Tables.antt =====
-- The theorems on the dynamic table at concrete data.
use my_simple_c_http_server.Prelude.{◌≡◌, true, [], ◌∷◌, some, arith, get_elem?, ok}
use my_simple_c_http_server.Hpack.Types.{HpackHeaderDynamicEntry, null_entry}
use my_simple_c_http_server.Hpack.DynamicTable.{at, contents, insert_at_start, pop_at_end}
use my_simple_c_http_server.Hpack.DynamicTable.Insert.{Inserted, insert_at_start-Inserted}
use my_simple_c_http_server.Hpack.DynamicTable.Pop.{Popped, pop_at_end-Popped, at-contents}
use my_simple_c_http_server.Hpack.TableState.{
  HpackDynamicTableState, evict_while, over_with, rounds, insert_entry_into_dynamic_table,
  set_hpack_state_setting,
}
use my_simple_c_http_server.Hpack.TableState.Evict.{
  TestsLimit, IsCounted, IsEvicted, evict_while-IsEvicted,
}
use my_simple_c_http_server.Hpack.TableState.Insert.{
  InsertedEntry, insert_entry-InsertedEntry, Resized, set_hpack_state_setting-Resized,
}
use my_simple_c_http_server.Hpack.Compress.Lookup.Found.{IsFound, find_in_tables_sound}
use my_simple_c_http_server.Hpack.Compress.Lookup.{TableFindResult, find_in_tables}
use my_simple_c_http_server.Hpack.Tests.{
  example, example_alloc, example_lookup, entry_of, path, two_entries, two_entries-IsValid,
  two_state, two_state-IsSized,
}

abbrev new_entry : HpackHeaderDynamicEntry
new_entry = entry_of path (some (b'z' ∷ []))

at-contents_example : at null_entry two_entries 1 ≡ get_elem? (contents null_entry two_entries) 1
at-contents_example = at-contents null_entry two_entries 1

pop_at_end-Popped_example : Popped null_entry two_entries (pop_at_end null_entry two_entries)
pop_at_end-Popped_example = pop_at_end-Popped null_entry two_entries two_entries-IsValid

insert_at_start-Inserted_example :
    Inserted null_entry example.can_alloc two_entries new_entry
      (insert_at_start null_entry example.can_alloc two_entries new_entry)
insert_at_start-Inserted_example =
    insert_at_start-Inserted null_entry example.can_alloc example_alloc two_entries
      two_entries-IsValid new_entry

insert_entry-InsertedEntry_example :
    (result : HpackDynamicTableState) × (insert_entry_into_dynamic_table example.can_alloc two_state
        new_entry
      ≡ some result)
    × InsertedEntry example.can_alloc example_alloc new_entry two_state two_state-IsSized result
insert_entry-InsertedEntry_example =
    insert_entry-InsertedEntry example.can_alloc example_alloc new_entry two_state two_state-IsSized

set_hpack_state_setting-Resized_example :
    (result : HpackDynamicTableState) × (set_hpack_state_setting two_state 40 ≡ some result)
    × Resized two_state 40 result
set_hpack_state_setting-Resized_example =
    set_hpack_state_setting-Resized two_state two_state-IsSized 40 (omega arith)

two_state-IsCounted : IsCounted two_state
two_state-IsCounted = record {
  table = two_state-IsSized.table;
  counted = two_state-IsSized.counted;
  bounded = omega arith;
}

tests_66 : TestsLimit (over_with 34) 66 two_state
tests_66 s same le = ground arith

-- An entry of 34 bytes is to fit: 66 bytes may stay.
evict_while-IsEvicted_example :
    (result : HpackDynamicTableState) × (evict_while (over_with 34) (rounds two_state) two_state
      ≡ some result)
    × IsEvicted 66 two_state result
evict_while-IsEvicted_example =
    evict_while-IsEvicted (over_with 34) 66 (rounds two_state) two_state (omega arith)
      two_state-IsCounted tests_66

find_in_tables_sound_example :
    (r : TableFindResult) × (find_in_tables example
        (record { key = path; value = some (b'/' ∷ []) })
        two_state
        true
      ≡ ok r)
    × IsFound example (record { key = path; value = some (b'/' ∷ []) }) two_state r
find_in_tables_sound_example =
    find_in_tables_sound example example_lookup (record { key = path; value = some (b'/' ∷ []) })
      two_state true
