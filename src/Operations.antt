-- ===== src/Operations.antt =====
-- proj_p2/src/server/operations.c: the commands of a job file on the table.
pub mod Sort
pub mod Write
pub mod Text
pub mod Read
pub mod Missing
pub mod Delete
pub mod Distinct
pub mod Lifecycle
pub mod AnyOrder
pub mod Failure
use ist_key_value_store.Prelude.{
  ℕ, zero, suc, ◌+◌, ◌-◌, ◌*◌, ◌/◌, ◌%◌, List, [], ◌∷◌, ◌++◌, map, Option, none, some, Bool, true,
  false, ℤ, pos, negsuc, Ordering, ltb, ◌==◌, get_or, set, length, replicate, not, if◌then◌else◌,
}
use ist_key_value_store.CString.{Str, strcmp, snprintf, strn}
use ist_key_value_store.Table.{KeyNode, Bucket, HashTable, table_size, hash}
use ist_key_value_store.Machine.{
  M, World, TablePointer, null, live, freed, Mode, reading, writing, Held, pure, fault, ◌>>=◌, ◌>>◌,
  gets, modify, get_table, write_out,
}
use ist_key_value_store.Kvs.{create_hash_table, free_table, write_pair, read_pair, delete_pair}
use ist_key_value_store.Locks.{no_marks, lock_write_list, lock_read_list, unlock_list}
use ist_key_value_store.Operations.Sort.{qsort}

abbrev pub Pair : Type 0
Pair = Str × Str

unfoldable pub compare_pairs : Pair → Pair → Ordering
compare_pairs a b = strcmp a.0 b.0

unfoldable pub compare_keys : Str → Str → Ordering
compare_keys a b = strcmp a b

abbrev pub max_write_size : ℕ
max_write_size = 256

abbrev pub max_string_size : ℕ
max_string_size = 40

abbrev pub is_null : TablePointer → Bool
is_null null = true
is_null _ = false

abbrev created : Option HashTable → TablePointer
created none = null
created (some t) = live t

-- 1 if the state has been initialised, also if it has been freed since, or if there is no memory.
unfoldable pub kvs_init : M ℕ
unfolding create_hash_table
kvs_init = do
  table ← gets (λ w. w.kvs_table)
  if not (is_null table) then pure 1 else do
    ht ← create_hash_table
    modify (λ w. record w { kvs_table = created ht })
    pure (elim ht [ none ↦ 1 | some _ ↦ 0 ])

-- `free_table` leaves the pointer, which now dangles; a second call frees twice.
unfoldable pub kvs_terminate : M ℕ
unfolding get_table
kvs_terminate = do
  table ← gets (λ w. w.kvs_table)
  if is_null table
      then pure 1
      else do _ ← get_table; modify (λ w. record w { kvs_table = freed }); pure 0

-- The writing loop of `kvs_write`; a pair that cannot be written is only reported.
unfoldable pub write_pairs : List Pair → M (Unit {0})
write_pairs [] = pure tt
write_pairs ((key, value) ∷ pairs) = do _ ← write_pair key value; write_pairs pairs

unfoldable pub kvs_write : List Pair → M ℕ
unfolding lock_write_list unlock_list write_pairs
kvs_write pairs = do
  table ← gets (λ w. w.kvs_table)
  if is_null table then pure 1 else do
    let sorted = qsort compare_pairs pairs
    (failed, index_list) ← lock_write_list (map (λ p. p.0) sorted) no_marks
    if not (failed == 0) then pure 1 else do write_pairs sorted; unlock_list index_list

abbrev pub kvserror : Str
kvserror = b'K' ∷ b'V' ∷ b'S' ∷ b'E' ∷ b'R' ∷ b'R' ∷ b'O' ∷ b'R' ∷ []

abbrev pub kvsmissing : Str
kvsmissing = b'K' ∷ b'V' ∷ b'S' ∷ b'M' ∷ b'I' ∷ b'S' ∷ b'S' ∷ b'I' ∷ b'N' ∷ b'G' ∷ []

-- `(key,text)`
abbrev pub entry : Str → Str → Str
entry key text = b'(' ∷ key ++ (b',' ∷ text ++ (b')' ∷ []))

abbrev pub or_error : Option Str → Str
or_error none = kvserror
or_error (some value) = value

-- The loop of `kvs_read`.
unfoldable pub read_pairs : List Str → M (Unit {0})
unfolding write_out
read_pairs [] = pure tt
read_pairs (key ∷ keys) = do
  result ← read_pair key
  write_out (snprintf max_write_size (entry key (or_error result)))
  read_pairs keys

unfoldable pub kvs_read : List Str → M ℕ
unfolding lock_read_list unlock_list read_pairs
kvs_read keys = do
  table ← gets (λ w. w.kvs_table)
  if is_null table then pure 1 else do
    let sorted = qsort compare_keys keys
    (failed, index_list) ← lock_read_list sorted no_marks
    if not (failed == 0) then pure 1 else do
      write_out (b'[' ∷ [])
      read_pairs sorted
      write_out (b']' ∷ b'\n' ∷ [])
      unlock_list index_list

-- The loop of `kvs_delete`, from a value of `aux`, with the last value of it: whether a key was missing.
unfoldable pub delete_pairs : List Str → Bool → M Bool
unfolding write_out
delete_pairs [] aux = pure aux
delete_pairs (key ∷ keys) aux = do
  status ← delete_pair key
  elim (status == 0) [
    | true ↦ delete_pairs keys aux
    | false ↦ do
      if aux then pure tt else write_out (b'[' ∷ [])
      write_out (snprintf max_write_size (entry key kvsmissing))
      delete_pairs keys true
  ]

unfoldable pub kvs_delete : List Str → M ℕ
unfolding lock_write_list unlock_list delete_pairs
kvs_delete keys = do
  table ← gets (λ w. w.kvs_table)
  if is_null table then pure 1 else do
    let sorted = qsort compare_keys keys
    (failed, index_list) ← lock_write_list sorted no_marks
    if not (failed == 0) then pure 1 else do
      missing ← delete_pairs sorted false
      if missing then write_out (b']' ∷ b'\n' ∷ []) else pure tt
      unlock_list index_list
