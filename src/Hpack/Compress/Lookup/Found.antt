-- ===== src/Hpack/Compress/Lookup/Found.antt =====
-- The indices of find_in_tables in hpack_get_table_entry_at, both of src/http/hpack.c.
use my_simple_c_http_server.Prelude.{
  ℕ, zero, suc, ◌+◌, ◌-◌, ◌≤◌, ◌<◌, ◌≡◌, refl, sym, ap, ◌∙◌, Bool, true, false, none, some,
  if◌then◌else◌, arith, Bool-cases, inl, inr, length, get_elem?, Outcome, ok,
}
use my_simple_c_http_server.Hpack.Types.{
  Tstr, StaticTableFindResult, HttpHeaderField, HpackHeaderDynamicEntry, null_entry, External,
  all_found, key_found, not_found,
}
use my_simple_c_http_server.Hpack.DynamicTable.{size, slot}
use my_simple_c_http_server.Hpack.DynamicTable.Pop.{at-some}
use my_simple_c_http_server.Hpack.TableState.{HpackDynamicTableState}
use my_simple_c_http_server.Hpack.Compress.{NullBuffer}
use my_simple_c_http_server.Hpack.Compress.Lookup.{
  TableFindResult, TableFindResultType, found_nothing, found_key, found_all, no_match, key_matches,
  all_matches, better, of_static, table_entry_matches, table_entry_matches_dynamic, find_in_dynamic,
  find_in_tables,
}
use my_simple_c_http_server.Hpack.Decompress.{hpack_get_table_entry_at}
use my_simple_c_http_server.Hpack.Decompress.Entry.{static_entry, dynamic_entry}

module _ (ext : External) where
  open ext use {static_table, find_in_static_table_fast, tstr_eq}

  -- The documented behaviour of the string comparison and of the generated lookup: what is found is
  -- in the static table.
  pub record IsLookup : Type 0 where
    pub eq_sound : (a b : Tstr) → tstr_eq a b ≡ true → a ≡ b
    pub all_sound :
        (field : HttpHeaderField) (i : ℕ)
        → find_in_static_table_fast field ≡ all_found i
        → (0 < i)
          × (i ≤ length static_table)
          × (get_elem? static_table (i - 1)
              ≡ some (record { key = field.key; value = field.value }))
    pub key_sound :
        (field : HttpHeaderField) (i : ℕ)
        → find_in_static_table_fast field ≡ key_found i
        → (0 < i)
          × (i ≤ length static_table)
          × ((value : Tstr) × (get_elem? static_table (i - 1)
                ≡ some (record { key = field.key; value = value })))

  -- The index `i` of the decoder stands for the key of a field, and for the field.
  abbrev pub KeyAt : HttpHeaderField → HpackDynamicTableState → ℕ → Type 0
  KeyAt field state i =
      (0 < i)
      × (i ≤ length static_table + state.dynamic_table.count)
      × ((value : Tstr) × (hpack_get_table_entry_at ext state i
            ≡ ok (record { key = field.key; value = value })))

  abbrev pub FieldAt : HttpHeaderField → HpackDynamicTableState → ℕ → Type 0
  FieldAt field state i =
      (0 < i)
      × (i ≤ length static_table + state.dynamic_table.count)
      × (hpack_get_table_entry_at ext state i
          ≡ ok (record { key = field.key; value = field.value }))

  abbrev pub IsFound : HttpHeaderField → HpackDynamicTableState → TableFindResult → Type 0
  IsFound field state found_nothing = Unit
  IsFound field state (found_key i) = KeyAt field state i
  IsFound field state (found_all i) = FieldAt field state i

  -- What a comparison says of an entry.
  abbrev IsMatch : HttpHeaderField → Tstr → Tstr → TableFindResultType → Type 0
  IsMatch field key value no_match = Unit
  IsMatch field key value key_matches = field.key ≡ key
  IsMatch field key value all_matches = (field.key ≡ key) × (field.value ≡ value)

  module _ (lookup : IsLookup) (field : HttpHeaderField) where
    match_sound :
        (key value : Tstr) → IsMatch field key value (table_entry_matches ext field key value)
    unfolding table_entry_matches
    match_sound key none = elim (Bool-cases (tstr_eq field.key key)) [
      | inl same ↦ rw same (lookup.eq_sound field.key key same)
      | inr other ↦ rw other tt
    ]
    match_sound key (some value) = elim (Bool-cases (tstr_eq field.key key)) [
      | inr other ↦ rw other tt
      | inl same ↦ rw same (elim (Bool-cases (tstr_eq field.value (some value))) [
        | inl whole ↦
            rw whole
              (lookup.eq_sound field.key key same, lookup.eq_sound field.value (some value) whole)
        | inr part ↦ rw part (lookup.eq_sound field.key key same)
      ])
    ]

    module _ (state : HpackDynamicTableState) where
      better-IsFound :
          (r : TableFindResult) (i : ℕ)
          → IsFound field state r
          → KeyAt field state i
          → IsFound field state (better r i)
      better-IsFound found_nothing i h at_i = at_i
      better-IsFound (found_key j) i h at_i = h
      better-IsFound (found_all j) i h at_i = h

      module _ (i : ℕ) (h : i < state.dynamic_table.count) where
        entry_i : HpackHeaderDynamicEntry
        entry_i = slot null_entry state.dynamic_table i

        index_i : ℕ
        index_i = i + 1 + length static_table

        found_i : hpack_get_table_entry_at ext state index_i ≡ ok entry_i
        unfolding index_i entry_i
        found_i = dynamic_entry ext state i entry_i h (at-some null_entry state.dynamic_table i h)

        dynamic_key : field.key ≡ entry_i.key → KeyAt field state index_i
        unfolding index_i
        dynamic_key same = (
          omega arith,
          omega arith,
          (
            entry_i.value,
            found_i ∙ ap (λ key. ok (record { key = key; value = entry_i.value })) (sym same),
          ),
        )

        dynamic_all :
            field.key ≡ entry_i.key → field.value ≡ entry_i.value → FieldAt field state index_i
        unfolding index_i
        dynamic_all same whole = (
          omega arith,
          omega arith,
          found_i
              ∙ ap (λ key. ok (record { key = key; value = entry_i.value })) (sym same)
              ∙ ap (λ value. ok (record { key = field.key; value = value })) (sym whole),
        )

      -- The search from an entry on finds a sound index.
      abbrev Finds : Outcome NullBuffer TableFindResult → Type 0
      Finds m = (r : TableFindResult) × (m ≡ ok r) × IsFound field state r

      find_in_dynamic_step :
          (left i : ℕ) (h : i < state.dynamic_table.count) (result : TableFindResult)
          → ((r : TableFindResult)
              → IsFound field state r
              → Finds (find_in_dynamic ext field state left (suc i) r))
          → IsFound field state result
          → (m : TableFindResultType) → IsMatch field (entry_i i h).key (entry_i i h).value m
          → Finds (elim m [
            | all_matches ↦ ok (found_all (index_i i h))
            | key_matches ↦
                find_in_dynamic ext field state left (suc i) (better result (index_i i h))
            | no_match ↦ find_in_dynamic ext field state left (suc i) result
          ])
      find_in_dynamic_step left i h result next sound no_match match = next result sound
      find_in_dynamic_step left i h result next sound key_matches match =
          next (better result (index_i i h))
            (better-IsFound result (index_i i h) sound (dynamic_key i h match))
      find_in_dynamic_step left i h result next sound all_matches (same, whole) =
          (found_all (index_i i h), refl, dynamic_all i h same whole)

      find_in_dynamic_sound :
          (left i : ℕ) (result : TableFindResult)
          → i + left ≡ state.dynamic_table.count
          → IsFound field state result
          → Finds (find_in_dynamic ext field state left i result)
      unfolding find_in_dynamic entry_i index_i
      find_in_dynamic_sound zero i result e sound = (result, refl, sound)
      find_in_dynamic_sound (suc left) i result e sound =
          let h : i < state.dynamic_table.count = omega arith in
          rw (find_in_dynamic, at-some null_entry state.dynamic_table i h)
            (find_in_dynamic_step left i h result
              (λ r r_sound. find_in_dynamic_sound left (suc i) r (omega arith) r_sound) sound
              (table_entry_matches_dynamic ext field (slot null_entry state.dynamic_table i))
              (match_sound (slot null_entry state.dynamic_table i).key
                (slot null_entry state.dynamic_table i).value))

      static-IsFound :
          (r : StaticTableFindResult)
          → find_in_static_table_fast field ≡ r
          → IsFound field state (of_static r)
      static-IsFound not_found e = tt
      static-IsFound (key_found i) e =
          let (pos, low, (value, found)) = lookup.key_sound field i e in
          (pos, omega arith, (value, static_entry ext state i _ pos low found))
      static-IsFound (all_found i) e =
          let (pos, low, found) = lookup.all_sound field i e in
          (pos, omega arith, static_entry ext state i _ pos low found)

      dynamic_found :
          (use_all_tables : Bool) (r : TableFindResult)
          → IsFound field state r
          → Finds (
              if use_all_tables
              then find_in_dynamic ext field state (size state.dynamic_table) 0 r
              else ok r)
      dynamic_found true r sound =
          find_in_dynamic_sound state.dynamic_table.count 0 r (omega arith) sound
      dynamic_found false r sound = (r, refl, sound)

      -- With a sound lookup in the static table, the search returns, in the static table alone or in
      -- both; an index that it returns for a key is one at which the decoder
      -- finds an entry of that key, and an index for the whole field one at which it finds the field.
      pub find_in_tables_sound :
          (use_all_tables : Bool) → Finds (find_in_tables ext field state use_all_tables)
      unfolding find_in_tables
      find_in_tables_sound use_all_tables = go (find_in_static_table_fast field) refl
        where
          go :
              (r : StaticTableFindResult)
              → find_in_static_table_fast field ≡ r
              → Finds (elim r [
                | all_found i ↦ ok (found_all i)
                | other ↦
                    if use_all_tables
                    then find_in_dynamic ext field state
                        (size state.dynamic_table)
                        0
                        (of_static other)
                    else ok (of_static other)
              ])
          go (all_found i) e = (found_all i, refl, static-IsFound (all_found i) e)
          go (key_found i) e =
              dynamic_found use_all_tables (found_key i) (static-IsFound (key_found i) e)
          go not_found e = dynamic_found use_all_tables found_nothing (static-IsFound not_found e)
