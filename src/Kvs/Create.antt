-- ===== src/Kvs/Create.antt =====
-- server/kvs.c: `create_hash_table`, and the table that it makes.
use ist_key_value_store.Prelude.{
  ℕ, zero, suc, ◌+◌, ◌≡◌, refl, none, some, [], true, false, arith, replicate, get_or,
  get_or-replicate, length-replicate,
}
use ist_key_value_store.CString.{Str}
use ist_key_value_store.Table.{HashTable, Bucket, table_size, hash, find_node}
use ist_key_value_store.Table.Hash.{slot}
use ist_key_value_store.Table.Bucket.{count_key}
use ist_key_value_store.Table.View.{IsWellFormed, view, node_of}
use ist_key_value_store.Machine.{World}
use ist_key_value_store.Kvs.{create_hash_table, init_locks}

abbrev pub empty_table : HashTable
empty_table = record { table = replicate table_size [] }

pub empty_bucket : (i : ℕ) → get_or empty_table.table i [] ≡ []
empty_bucket i = get_or-replicate {A = Bucket} table_size i []

pub empty_table-IsWellFormed : IsWellFormed empty_table
unfolding count_key
empty_table-IsWellFormed = record {
  width = length-replicate {A = Bucket} table_size [];
  placed = λ k i. rw (empty_bucket i) (omega arith);
}

pub view-empty_table : (j : Str) → view empty_table j ≡ none
unfolding view node_of find_node
view-empty_table j = ground (arith, empty_bucket (slot (hash j)))

init_locks-true :
    (w : World) (n i : ℕ) → ((j : ℕ) → w.init_error j ≡ false) → init_locks n i w ≡ some (true, w)
unfolding init_locks
init_locks-true w zero i h = refl
init_locks-true w (suc n) i h = ground (arith, h i, init_locks-true w n (i + 1) h)

pub create_hash_table-empty_table :
    (w : World)
    → w.allocs ≡ []
    → ((j : ℕ) → w.init_error j ≡ false)
    → create_hash_table w ≡ some (some empty_table, w)
unfolding create_hash_table
create_hash_table-empty_table w memory locks =
    ground (arith, memory, init_locks-true w table_size 0 locks)
