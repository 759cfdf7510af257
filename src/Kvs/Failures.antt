-- ===== src/Kvs/Failures.antt =====
-- server/kvs.c where it fails: no memory, a key with no bucket, no table.
use ist_key_value_store.Prelude.{ℕ, ◌≡◌, ◌≢◌, false, none, some, arith}
use ist_key_value_store.CString.{Str}
use ist_key_value_store.Table.{first_byte}
use ist_key_value_store.Table.Hash.{is_alnum, hash-invalid_iff}
use ist_key_value_store.Machine.{World}
use ist_key_value_store.Kvs.{write_pair, read_pair, delete_pair}

-- A `write_pair` that returns non-zero has returned 1 and has changed neither the table nor the
-- notifications: a pair is never half written.
pub write_pair_atomic :
    (w w' : World) (key value : Str) (status : ℕ)
    → write_pair key value w ≡ some (status, w')
    → status ≢ 0
    → (status ≡ 1) × (w'.kvs_table ≡ w.kvs_table) × (w'.sent ≡ w.sent) × (w'.out ≡ w.out)
unfolding write_pair
write_pair_atomic w w' key value status h fails = ground arith

-- Whatever the state, the three operations on a pair are undefined behaviour for a key that does not
-- begin with a letter or a digit: the hash is -1, and `table[-1]` is accessed.
pub invalid_key_faults :
    (w : World) (key value : Str)
    → is_alnum (first_byte key) ≡ false
    → (write_pair key value w ≡ none) × (read_pair key w ≡ none) × (delete_pair key w ≡ none)
unfolding write_pair read_pair delete_pair
invalid_key_faults w key value h = ground (arith, (hash-invalid_iff key).1 h)
