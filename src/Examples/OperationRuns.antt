-- ===== src/Examples/OperationRuns.antt =====
-- Runs of the commands of server/operations.c.
use ist_key_value_store.Prelude.{◌≡◌, ◌==◌, refl, [], ◌∷◌, ◌++◌, some, arith}
use ist_key_value_store.CString.{Str, strcmp, str_eq, tolower}
use ist_key_value_store.Table.{HashTable, first_byte, hash, find_node}
use ist_key_value_store.Table.View.{view, node_of}
use ist_key_value_store.Machine.{World, reading, writing}
use ist_key_value_store.Locks.Holding.{acquired}
use ist_key_value_store.Locks.Order.{lock_sequence}
use ist_key_value_store.Locks.Failure.{any_fails}
use ist_key_value_store.Operations.{kvs_write, kvs_read, kvs_delete, compare_keys}
use ist_key_value_store.Operations.Sort.{qsort}
use ist_key_value_store.Operations.Text.{read_text}
use ist_key_value_store.Operations.Write.{WritesSorted, kvs_write_lem}
use ist_key_value_store.CString.Order.{str_eq_iff}
use ist_key_value_store.Operations.Write.{written}
use ist_key_value_store.Operations.AnyOrder.{kvs_write-AreDistinct}
use ist_key_value_store.Operations.Distinct.{AreDistinct, count_pairs}
use ist_key_value_store.Operations.Read.{kvs_read_lem}
use ist_key_value_store.Operations.Delete.{DeletesSorted, kvs_delete_lem}
use ist_key_value_store.Operations.Failure.{stopped, commands_keep_locks}
use ist_key_value_store.Examples.Fixtures.{
  ant, bee, one, two, two_pairs, two_pairs-IsWellFormed, world, world-IsReady,
}

kvs_write_lem_example :
    (t' : HashTable) × WritesSorted world two_pairs ((bee, one) ∷ (ant, two) ∷ []) t'
unfolding first_byte
kvs_write_lem_example =
    kvs_write_lem world two_pairs ((bee, one) ∷ (ant, two) ∷ []) world-IsReady refl refl
      two_pairs-IsWellFormed (refl, (refl, tt))

kvs_delete_lem_example : (t' : HashTable) × DeletesSorted world two_pairs (bee ∷ ant ∷ bee ∷ []) t'
unfolding first_byte
kvs_delete_lem_example =
    kvs_delete_lem world two_pairs (bee ∷ ant ∷ bee ∷ []) world-IsReady refl refl
      two_pairs-IsWellFormed (refl, (refl, (refl, tt)))
      (omega arith, (omega arith, (omega arith, tt)))

-- The lock of the bucket of `bee` cannot be taken.
abbrev bee_fails : World
bee_fails = record world { lock_error = λ i. i == 1 }

commands_keep_locks_example :
    (kvs_write ((bee, one) ∷ (ant, two) ∷ []) bee_fails
      ≡ some (1, stopped writing (bee ∷ ant ∷ []) bee_fails))
    × (kvs_read (bee ∷ ant ∷ []) bee_fails ≡ some (1, stopped reading (bee ∷ ant ∷ []) bee_fails))
    × (kvs_delete (bee ∷ ant ∷ []) bee_fails ≡ some (1, stopped writing (bee ∷ ant ∷ []) bee_fails))
unfolding any_fails lock_sequence acquired qsort compare_keys strcmp hash tolower first_byte
commands_keep_locks_example =
    commands_keep_locks bee_fails two_pairs ((bee, one) ∷ (ant, two) ∷ []) refl (refl, (refl, tt))
      refl

kvs_read_lem_example :
    kvs_read (ant ∷ (b'c' ∷ []) ∷ []) world
    ≡ some (
      0,
      record world {
        out =
            b'[' ∷ read_text (view two_pairs) (qsort compare_keys (ant ∷ (b'c' ∷ []) ∷ []))
            ++ (b']' ∷ b'\n' ∷ []);
      },
    )
unfolding view node_of find_node strcmp str_eq hash tolower first_byte
kvs_read_lem_example =
    kvs_read_lem two_pairs two_pairs-IsWellFormed world (ant ∷ (b'c' ∷ []) ∷ []) world-IsReady refl
      refl (refl, (refl, tt)) (omega arith, (omega arith, tt)) (omega arith, (tt, tt))

bee-ant-AreDistinct : AreDistinct ((bee, one) ∷ (ant, two) ∷ [])
unfolding count_pairs
bee-ant-AreDistinct j = ground (arith, str_eq_iff bee j, str_eq_iff ant j)

kvs_write-AreDistinct_example :
    (t' : HashTable) × WritesSorted world two_pairs ((bee, one) ∷ (ant, two) ∷ []) t'
    × ((j : Str) → view t' j ≡ written j ((bee, one) ∷ (ant, two) ∷ []) (view two_pairs j))
unfolding first_byte
kvs_write-AreDistinct_example =
    kvs_write-AreDistinct world two_pairs ((bee, one) ∷ (ant, two) ∷ []) world-IsReady refl refl
      two_pairs-IsWellFormed (refl, (refl, tt)) bee-ant-AreDistinct
