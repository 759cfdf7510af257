-- ===== src/Operations/Failure.antt =====
-- server/operations.c: commands that fail because a bucket lock cannot be taken.
use ist_key_value_store.Prelude.{◌≡◌, refl, List, true, some, map, arith, All}
use ist_key_value_store.CString.{Str}
use ist_key_value_store.Table.{HashTable}
use ist_key_value_store.Table.Hash.{IsHashable}
use ist_key_value_store.Machine.{World, live, Mode, reading, writing}
use ist_key_value_store.Locks.{no_marks}
use ist_key_value_store.Locks.Holding.{push}
use ist_key_value_store.Locks.Order.{lock_sequence}
use ist_key_value_store.Locks.Failure.{any_fails, before_failure, lock_list-fails}
use ist_key_value_store.Operations.{
  Pair, compare_pairs, compare_keys, kvs_write, kvs_read, kvs_delete,
}
use ist_key_value_store.Operations.Sort.{qsort}
use ist_key_value_store.Operations.Sort.Keys.{map-qsort}
use ist_key_value_store.Operations.Sort.Laws.{qsort-All}

-- What a command leaves that stops at the first lock that fails.
abbrev pub stopped : Mode → List Str → World → World
stopped mode keys w = record w {
  held = push mode (before_failure w.lock_error (lock_sequence keys)) w.held;
}

-- The keys of a WRITE in the order in which `kvs_write` goes through them.
pub keys_of-qsort :
    (pairs : List Pair)
    → map (λ p. p.0) (qsort compare_pairs pairs) ≡ qsort compare_keys (map (λ p. p.0) pairs)
unfolding compare_pairs compare_keys
keys_of-qsort pairs = map-qsort (λ p. p.0) compare_pairs compare_keys (λ x y. refl) pairs

-- If the lock of a bucket that `kvs_write`, `kvs_read` or `kvs_delete` needs cannot be taken, the command
-- returns 1 and neither writes, sends, prints nor deletes anything, but keeps the locks of all buckets
-- that it took before.
pub commands_keep_locks :
    (w : World) (t : HashTable) (pairs : List Pair)
    → w.kvs_table ≡ live t
    → All IsHashable (map (λ p. p.0) pairs)
    → any_fails w.lock_error (lock_sequence (map (λ p. p.0) pairs)) ≡ true
    → let keys = map (λ p. p.0) pairs in
      (kvs_write pairs w ≡ some (1, stopped writing keys w))
      × (kvs_read keys w ≡ some (1, stopped reading keys w))
      × (kvs_delete keys w ≡ some (1, stopped writing keys w))
unfolding kvs_write kvs_read kvs_delete lock_sequence
commands_keep_locks w t pairs at h f =
    let keys = map (λ p. p.0) pairs in
    let sorted = qsort compare_keys keys in
    let h' = qsort-All compare_keys IsHashable keys h in
    let (m, r) = lock_list-fails reading t sorted no_marks w at h' refl f in
    let (m', d) = lock_list-fails writing t sorted no_marks w at h' refl f in
    (ground (arith, at, d, keys_of-qsort pairs), ground (arith, at, r), ground (arith, at, d))
