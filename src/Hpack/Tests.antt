-- ===== src/Hpack/Tests.antt =====
-- HPACK at concrete data: a static table of two entries, a table state with two entries, and lists
-- of headers.
mod Runs
mod Tables
mod Codes
use my_simple_c_http_server.Prelude.{
  ℕ, zero, suc, ◌+◌, ◌-◌, ◌*◌, ◌^◌, ◌≤◌, ◌<◌, ◌≡◌, ◌≢◌, ◌⊎◌, ◌∙◌, refl, sym, ap, Bool, true, false,
  ◌&&◌, List, [], ◌∷◌, ◌++◌, Option, none, some, leb, ◌==◌, ==_iff, if◌then◌else◌, arith, tests,
  Bool-cases, inl, inr, Bytes, length, get_elem?, Outcome, ok, error, fault, Ensures,
}
use my_simple_c_http_server.Hpack.Types.{
  Tstr, HttpHeaderField, HpackHeaderDynamicEntry, null_entry, HuffmanNode, node, end, invalid,
  External, StaticTableFindResult, all_found, key_found, not_found,
}
use my_simple_c_http_server.Hpack.DynamicTable.{Table, IsValid, contents}
use my_simple_c_http_server.Hpack.TableState.{
  HpackDynamicTableState, IsSized, get_dynamic_entry_size,
}
use my_simple_c_http_server.Hpack.Compress.Lookup.Found.{IsLookup}

pub bytes_eq : Bytes → Bytes → Bool
bytes_eq [] [] = true
bytes_eq [] (y ∷ ys) = false
bytes_eq (x ∷ xs) [] = false
bytes_eq (x ∷ xs) (y ∷ ys) = if x == y then bytes_eq xs ys else false

bytes_eq_sound : (xs ys : Bytes) → bytes_eq xs ys ≡ true → xs ≡ ys
unfolding bytes_eq
bytes_eq_sound [] [] h = refl
bytes_eq_sound [] (y ∷ ys) h = cc
bytes_eq_sound (x ∷ xs) [] h = cc
bytes_eq_sound (x ∷ xs) (y ∷ ys) h = elim (Bool-cases (x == y)) [
  | inl same ↦
      ap (λ z. z ∷ xs) ((==_iff x y).0 same)
      ∙ ap (λ zs. y ∷ zs) (bytes_eq_sound xs ys (rw same at h))
  | inr other ↦ cc (rw other at h)
]

pub string_eq : Tstr → Tstr → Bool
string_eq none none = true
string_eq none (some b) = false
string_eq (some a) none = false
string_eq (some a) (some b) = bytes_eq a b

string_eq_sound : (a b : Tstr) → string_eq a b ≡ true → a ≡ b
unfolding string_eq
string_eq_sound none none h = refl
string_eq_sound none (some b) h = cc
string_eq_sound (some a) none h = cc
string_eq_sound (some a) (some b) h = ap some (bytes_eq_sound a b h)

abbrev method : Tstr
method = some (b'm' ∷ [])

abbrev get : Tstr
get = some (b'G' ∷ [])

abbrev path : Tstr
path = some (b'p' ∷ [])

-- A lookup in the table of `method: get` and of the key `path`.
pub find : HttpHeaderField → StaticTableFindResult
find field =
    if string_eq field.key method
    then (if string_eq field.value get then all_found 1 else key_found 1)
    else if string_eq field.key path
    then key_found 2
    else not_found

abbrev example : External
example = record {
  static_table = record { key = method; value = get } ∷ record { key = path; value = none } ∷ [];
  find_in_static_table_fast = find;
  is_common_field_key_fast = λ key. string_eq key path;
  tree = node (end b'a') (node (end b'b') invalid);
  encode_map = λ c. record { value = 0; bit_size = 1 };
  tstr_eq = string_eq;
  can_alloc = λ n. leb n 4096;
}

example_alloc : (n : ℕ) → example.can_alloc n ≡ true → n ≤ 2 ^ 62
example_alloc n h = omega tests

-- What a result of the lookup says.
abbrev IsIn : HttpHeaderField → StaticTableFindResult → Type 0
IsIn field not_found = Unit
IsIn field (key_found i) =
    (0 < i)
    × (i ≤ 2)
    × ((value : Tstr) × (get_elem? example.static_table (i - 1)
          ≡ some (record { key = field.key; value = value })))
IsIn field (all_found i) =
    (0 < i)
    × (i ≤ 2)
    × (get_elem? example.static_table (i - 1)
        ≡ some (record { key = field.key; value = field.value }))

abbrev entry_of : Tstr → Tstr → HpackHeaderDynamicEntry
entry_of key value = record { key = key; value = value }

find_sound : (field : HttpHeaderField) → IsIn field (find field)
unfolding find
find_sound field = elim (Bool-cases (string_eq field.key method)) [
  | inl is_method ↦
      let key : method ≡ field.key = sym (string_eq_sound field.key method is_method) in
      rw is_method (elim (Bool-cases (string_eq field.value get)) [
        | inl is_get ↦ rw is_get (
          omega arith,
          omega arith,
          ap (λ k. some (entry_of k get)) key
              ∙ ap (λ v. some (entry_of field.key v))
                  (sym (string_eq_sound field.value get is_get)),
        )
        | inr other ↦
            rw other (omega arith, omega arith, (get, ap (λ k. some (entry_of k get)) key))
      ])
  | inr not_method ↦ rw not_method (elim (Bool-cases (string_eq field.key path)) [
    | inl is_path ↦
        let key : path ≡ field.key = sym (string_eq_sound field.key path is_path) in
        rw is_path (omega arith, omega arith, (none, ap (λ k. some (entry_of k none)) key))
    | inr other ↦ rw other tt
  ])
]

example_lookup : IsLookup example
example_lookup = record {
  eq_sound = string_eq_sound;
  all_sound = λ field i h. rw h at (find_sound field);
  key_sound = λ field i h. rw h at (find_sound field);
}

-- A state with two entries, in an array of four from its last slot on.
abbrev first_entry : HpackHeaderDynamicEntry
first_entry = entry_of path (some (b'/' ∷ []))

abbrev second_entry : HpackHeaderDynamicEntry
second_entry = entry_of (some (b'k' ∷ [])) (some (b'v' ∷ b'w' ∷ []))

abbrev two_entries : Table HpackHeaderDynamicEntry
two_entries = record {
  entries = second_entry ∷ null_entry ∷ null_entry ∷ first_entry ∷ [];
  count = 2;
  capacity = 4;
  start = 3;
}

abbrev two_state : HpackDynamicTableState
two_state = record {
  dynamic_table = two_entries;
  max_dynamic_table_byte_size = 100;
  current_dynamic_table_byte_size = 69;
}

two_entries-IsValid : IsValid two_entries
two_entries-IsValid = record {
  fits = omega arith;
  starts = omega arith;
  room = refl;
  bounded = omega arith;
}

two_contents : contents null_entry two_entries ≡ first_entry ∷ second_entry ∷ []
two_contents = refl

two_state-IsSized : IsSized two_state
unfolding get_dynamic_entry_size
two_state-IsSized = record {
  table = two_entries-IsValid;
  counted = refl;
  within = omega arith;
  bounded = omega arith;
}
