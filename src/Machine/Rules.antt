-- ===== src/Machine/Rules.antt =====
-- What the primitive actions do on a live table with memory left.
use ist_key_value_store.Prelude.{ℕ, ◌<◌, ◌≡◌, true, some, [], pos, arith, get_or, set, length}
use ist_key_value_store.Table.{HashTable, Bucket}
use ist_key_value_store.Machine.{World, live, malloc, bucket_at, set_bucket}

-- With no failure to come, an allocation succeeds and nothing else changes.
pub malloc-succeeds : (w : World) → w.allocs ≡ [] → malloc w ≡ some (true, w)
unfolding malloc
malloc-succeeds w e = ground arith

pub bucket_at-live :
    (w : World) (t : HashTable) (i : ℕ)
    → w.kvs_table ≡ live t
    → i < length t.table
    → bucket_at (pos i) w ≡ some (get_or t.table i [], w)
unfolding bucket_at
bucket_at-live w t i e h = ground arith

pub set_bucket-live :
    (w : World) (t : HashTable) (i : ℕ) (b : Bucket)
    → w.kvs_table ≡ live t
    → i < length t.table
    → set_bucket (pos i) b w
      ≡ some (tt, record w { kvs_table = live (record { table = set t.table i b }) })
unfolding set_bucket
set_bucket-live w t i b e h = ground arith
