-- ===== src/Operations/Lifecycle.antt =====
-- server/operations.c and server/kvs.c: the life of the table, from `kvs_init` to `kvs_terminate`.
use ist_key_value_store.Prelude.{ℕ, ◌≡◌, refl, none, some, [], false, arith}
use ist_key_value_store.CString.{Str}
use ist_key_value_store.Table.{HashTable}
use ist_key_value_store.Table.View.{IsWellFormed, view}
use ist_key_value_store.Machine.{World, null, live, freed}
use ist_key_value_store.Kvs.Create.{
  empty_table, empty_table-IsWellFormed, view-empty_table, create_hash_table-empty_table,
}
use ist_key_value_store.Operations.{kvs_init, kvs_terminate}

-- `kvs_init` before any table exists, with memory and locks that do not fail, returns 0 and makes a
-- well-formed table in which every key is missing.
pub kvs_init-empty_table :
    (w : World)
    → w.kvs_table ≡ null
    → w.allocs ≡ []
    → ((j : ℕ) → w.init_error j ≡ false)
    → (kvs_init w ≡ some (0, record w { kvs_table = live empty_table }))
      × IsWellFormed empty_table
      × ((j : Str) → view empty_table j ≡ none)
unfolding kvs_init
kvs_init-empty_table w at memory locks = (
  ground (arith, create_hash_table-empty_table w memory locks),
  empty_table-IsWellFormed,
  view-empty_table,
)

-- The state is made once: after `kvs_terminate` has freed a table, `kvs_init` returns 1 and changes
-- nothing, and a second `kvs_terminate` is undefined behaviour, as the pointer still has its value.
pub kvs_terminate-dangles :
    (w : World) (t : HashTable)
    → w.kvs_table ≡ live t
    → let w' : World = record w { kvs_table = freed } in
      (kvs_terminate w ≡ some (0, w')) × (kvs_init w' ≡ some (1, w')) × (kvs_terminate w' ≡ none)
unfolding kvs_init kvs_terminate
kvs_terminate-dangles w t at = (ground (arith, at), refl, refl)
