-- ===== src/Hpack/DynamicTable.antt =====
-- The cyclic buffer of src/http/dynamic_hpack_table.c, built without
-- DYNAMIC_HPACK_TABLE_FORTIFIED. `null` fills the slots that hold no entry (`realloc` leaves them
-- undefined), and `can_alloc n` is whether `realloc` to `n` entries succeeds when the table grows.
-- A smaller array is always granted: the code calls any other case unreachable.
mod Index
pub mod Insert
pub mod Pop
pub mod Shrink
use my_simple_c_http_server.Prelude.{
  ℕ, zero, suc, ◌+◌, ◌-◌, ◌*◌, ◌/◌, ◌%◌, ◌^◌, ◌≤◌, ◌≡◌, Bool, true, false, List, [], ◌∷◌, ◌++◌,
  Option, none, some, ltb, leb, ◌==◌, if◌then◌else◌, u64, length, get_or, set, take, replicate,
  tabulate,
}

-- `HpackHeaderDynamicTable`
pub record Table {ℓ} (A : Type ℓ) : Type ℓ where
  pub entries : List A
  pub count : ℕ
  pub capacity : ℕ
  pub start : ℕ

-- `x - 1` at type `size_t`
abbrev pub pred_size : ℕ → ℕ
pred_size x = (x + (2 ^ 64 - 1)) % 2 ^ 64

-- `IMPL_START_SIZE`, `IMPL_CALC_GROW`, `IMPL_SHOULD_SHRINK`, `IMPL_CALC_SHRINK`
abbrev pub start_size : ℕ
start_size = 32

abbrev pub calc_grow : ℕ → ℕ
calc_grow cap = if cap == 0 then start_size else u64 (cap * 2)

abbrev pub should_shrink : ℕ → ℕ → Bool
should_shrink count cap = ltb count (cap / 4)

abbrev pub calc_shrink : ℕ → ℕ
calc_shrink cap = cap / 2

module _ {ℓ} {A : Type ℓ} where
  abbrev pub get_empty : Table A
  get_empty = record { entries = []; count = 0; capacity = 0; start = 0 }

  abbrev pub size : Table A → ℕ
  size t = t.count

  -- The table without its last entry, before its array is shrunk.
  abbrev pub drop_last : Table A → Table A
  drop_last t = record t { count = t.count - 1 }

  -- `hpack_dynamic_table_free`: the entries are freed and the table is the empty one.
  abbrev pub free : Table A → Table A
  free t = get_empty

module _ {ℓ} {A : Type ℓ} (null : A) where
  -- `realloc` to `n` entries
  abbrev pub resize : ℕ → List A → List A
  resize n xs = take n (xs ++ replicate n null)

  -- The entry at an index that the code has reduced by `% capacity`.
  abbrev pub slot : Table A → ℕ → A
  slot t i = get_or t.entries (u64 (t.start + i) % t.capacity) null

  pub at : Table A → ℕ → Option A
  at t index = if leb t.count index then none else some (slot t index)

  -- `for(i = 0; i < amount; ++i) entries[count + i] = entries[i]`, from `i` on
  pub copy_behind : ℕ → ℕ → ℕ → List A → List A
  copy_behind count zero i xs = xs
  copy_behind count (suc left) i xs =
      copy_behind count left (suc i) (set xs (u64 (count + i)) (get_or xs i null))

  -- The larger array, with the entries in front of `start` moved behind the others.
  pub grow : ℕ → Table A → Table A
  grow new_capacity t =
      let wide = resize new_capacity t.entries in
      record t {
        entries = if t.start == 0 then wide else copy_behind t.count t.start 0 wide;
        capacity = new_capacity;
      }

  -- The end of the insertion, with room for one more.
  pub push_start : Table A → A → Table A
  push_start t entry =
      let first_free_idx = pred_size (u64 (t.start + t.capacity)) % t.capacity in
      record t {
        entries = set t.entries first_free_idx entry;
        start = first_free_idx;
        count = u64 (t.count + 1);
      }

  pub insert_at_start : (ℕ → Bool) → Table A → A → Bool × Table A
  insert_at_start can_alloc t entry =
      if leb t.capacity t.count
      then (if can_alloc (calc_grow t.capacity)
          then (true, push_start (grow (calc_grow t.capacity) t) entry)
          else (false, t))
      else (true, push_start t entry)

  -- `for(i = count; i != 0; --i) entries[i - 1] = entries[(start + i - 1) % capacity]`
  pub move_from_end : ℕ → ℕ → ℕ → List A → List A
  move_from_end start cap zero xs = xs
  move_from_end start cap (suc i) xs =
      move_from_end start cap i (set xs i (get_or xs (u64 (start + i) % cap) null))

  -- `for(i = 0; i < count; ++i) entries[i] = entries[(start + i) % capacity]`, from `i` on
  pub move_from_start : ℕ → ℕ → ℕ → ℕ → List A → List A
  move_from_start start cap zero i xs = xs
  move_from_start start cap (suc left) i xs =
      move_from_start start cap left (suc i) (set xs i (get_or xs (u64 (start + i) % cap) null))

  -- The entries brought to the front of the array, which is cut to `new_capacity`.
  pub shrink : ℕ → Table A → Table A
  shrink new_capacity t =
      let moved =
        if leb new_capacity t.start
        then move_from_end t.start t.capacity t.count t.entries
        else if t.start == 0
        then t.entries
        else move_from_start t.start t.capacity t.count 0 t.entries in
      record t { entries = resize new_capacity moved; capacity = new_capacity; start = 0 }

  pub pop_at_end : Table A → Option (A × Table A)
  pop_at_end t =
      let last_idx = pred_size (u64 (t.start + t.count)) % t.capacity in
      let entry = get_or t.entries last_idx null in
      let rest = drop_last t in
      let new_capacity = calc_shrink t.capacity in
      if t.count == 0
      then none
      else if should_shrink rest.count t.capacity
      then (if ltb new_capacity start_size
          then some (entry, rest)
          else some (entry, shrink new_capacity rest))
      else some (entry, rest)

  -- The entries that a table holds, first to last.
  abbrev pub contents : Table A → List A
  contents t = tabulate t.count (slot t)

-- The indices stay in the array, and no index arithmetic on `size_t` wraps round.
pub record IsValid {ℓ} {A : Type ℓ} (t : Table A) : Type 0 where
  pub fits : t.count ≤ t.capacity
  pub starts : t.start ≤ t.capacity - 1
  pub room : length t.entries ≡ t.capacity
  pub bounded : t.capacity ≤ 2 ^ 62
