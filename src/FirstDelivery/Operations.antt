-- ===== src/FirstDelivery/Operations.antt =====
-- proj_p1/operations.c.
use ist_key_value_store.Prelude.{
  ℕ, List, [], ◌∷◌, Ordering, Bool, true, false, map, ◌==◌, not, if◌then◌else◌,
}
use ist_key_value_store.CString.{Str, snprintf}
use ist_key_value_store.Table.{Bucket}
use ist_key_value_store.Machine.{M, pure, ◌>>=◌, ◌>>◌, gets, get_table, write_out}
use ist_key_value_store.Locks
use ist_key_value_store.Locks.{no_marks}
use ist_key_value_store.Operations
use ist_key_value_store.Operations.{Pair, max_write_size, is_null, entry, or_error, kvsmissing}
use ist_key_value_store.Operations.Sort.{qsort}
use ist_key_value_store.Dump
use ist_key_value_store.Dump.{line, Timespec}
use ist_key_value_store.FirstDelivery.{write_pair, read_pair, delete_pair}

abbrev pub delay_to_timespec : ℕ → Timespec
delay_to_timespec = Dump.delay_to_timespec

abbrev pub kvs_init : M ℕ
kvs_init = Operations.kvs_init

abbrev pub kvs_terminate : M ℕ
kvs_terminate = Operations.kvs_terminate

-- The key is the first field of what is compared.
abbrev pub compare_pairs : Pair → Pair → Ordering
compare_pairs = Operations.compare_pairs

abbrev pub compare_keys : Str → Str → Ordering
compare_keys = Operations.compare_keys

abbrev pub lock_write_list : List Str → List ℕ → M (ℕ × List ℕ)
lock_write_list = Locks.lock_write_list

abbrev pub lock_read_list : List Str → List ℕ → M (ℕ × List ℕ)
lock_read_list = Locks.lock_read_list

abbrev pub unlock_list : List ℕ → M ℕ
unlock_list = Locks.unlock_list

-- The writing loop of `kvs_write`; a pair that cannot be written is only reported.
unfoldable pub write_pairs : List Pair → M (Unit {0})
write_pairs [] = pure tt
write_pairs ((key, value) ∷ pairs) = do _ ← write_pair key value; write_pairs pairs

unfoldable pub kvs_write : List Pair → M ℕ
unfolding write_pairs
kvs_write pairs = do
  table ← gets (λ w. w.kvs_table)
  if is_null table then pure 1 else do
    let sorted = qsort compare_pairs pairs
    (failed, index_list) ← lock_write_list (map (λ p. p.0) sorted) no_marks
    if not (failed == 0) then pure 1 else do write_pairs sorted; unlock_list index_list

-- The loop of `kvs_read`.
unfoldable pub read_pairs : List Str → M (Unit {0})
unfolding write_out
read_pairs [] = pure tt
read_pairs (key ∷ keys) = do
  result ← read_pair key
  write_out (snprintf max_write_size (entry key (or_error result)))
  read_pairs keys

unfoldable pub kvs_read : List Str → M ℕ
unfolding read_pairs
kvs_read keys = do
  table ← gets (λ w. w.kvs_table)
  if is_null table then pure 1 else do
    let sorted = qsort compare_keys keys
    (failed, index_list) ← lock_read_list sorted no_marks
    if not (failed == 0) then pure 1 else do
      write_out (b'[' ∷ [])
      read_pairs sorted
      write_out (b']' ∷ b'\n' ∷ [])
      unlock_list index_list

-- The loop of `kvs_delete`, from a value of `aux`, with the last value of it: whether a key was missing.
unfoldable pub delete_pairs : List Str → Bool → M Bool
unfolding write_out
delete_pairs [] aux = pure aux
delete_pairs (key ∷ keys) aux = do
  status ← delete_pair key
  elim (status == 0) [
    | true ↦ delete_pairs keys aux
    | false ↦ do
      if aux then pure tt else write_out (b'[' ∷ [])
      write_out (snprintf max_write_size (entry key kvsmissing))
      delete_pairs keys true
  ]

unfoldable pub kvs_delete : List Str → M ℕ
unfolding delete_pairs
kvs_delete keys = do
  table ← gets (λ w. w.kvs_table)
  if is_null table then pure 1 else do
    let sorted = qsort compare_keys keys
    (failed, index_list) ← lock_write_list sorted no_marks
    if not (failed == 0) then pure 1 else do
      missing ← delete_pairs sorted false
      if missing then write_out (b']' ∷ b'\n' ∷ []) else pure tt
      unlock_list index_list

abbrev pub kvs_show : M ℕ
kvs_show = Dump.kvs_show

-- The lines of a backup are those of `kvs_show`, in a buffer of MAX_WRITE_SIZE bytes.
unfoldable pub backup_bucket : Bucket → M (Unit {0})
backup_bucket [] = pure tt
backup_bucket (node ∷ next) = do
  write_out (snprintf max_write_size (line node.key node.value))
  backup_bucket next

unfoldable pub backup_buckets : List Bucket → M (Unit {0})
backup_buckets [] = pure tt
backup_buckets (bucket ∷ buckets) = do backup_bucket bucket; backup_buckets buckets

-- The child's copy of the state; `out` is the backup file. `close_fails` is whether `close` of it fails.
unfoldable pub kvs_backup : Bool → M ℕ
unfolding backup_buckets backup_bucket
kvs_backup close_fails = do
  table ← gets (λ w. w.kvs_table)
  if is_null table
      then pure 1
      else do t ← get_table; backup_buckets t.table; pure (if close_fails then 1 else 0)
