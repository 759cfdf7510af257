-- ===== src/Locks.antt =====
-- server/operations.c: the bucket locks of one command. `indexList` marks the buckets that were locked.
pub mod Holding
pub mod Release
pub mod Order
pub mod System
pub mod Progress
pub mod Commands
pub mod Failure
use ist_key_value_store.Prelude.{
  ℕ, ◌+◌, List, [], ◌∷◌, Bool, true, false, pos, negsuc, ltb, ◌==◌, get_or, set, length, replicate,
  not, if◌then◌else◌,
}
use ist_key_value_store.CString.{Str}
use ist_key_value_store.Table.{table_size, hash}
use ist_key_value_store.Machine.{
  M, World, Mode, reading, writing, Held, pure, fault, ◌>>=◌, ◌>>◌, gets, modify, get_table,
}

abbrev pub no_marks : List ℕ
no_marks = replicate table_size 0

-- `pthread_rwlock_rdlock` or `wrlock` on a bucket: whether it failed.
unfoldable pub lock_bucket : Mode → ℕ → M Bool
unfolding get_table
lock_bucket mode index = do
  _ ← get_table
  failed ← gets (λ w. w.lock_error index)
  if failed then pure true else do
    modify (λ w. record w { held = record { index = index; mode = mode } ∷ w.held })
    pure false

unfoldable pub release : ℕ → List Held → List Held
release index [] = []
release index (h ∷ hs) = if h.index == index then hs else h ∷ release index hs

-- `pthread_rwlock_unlock` on a bucket: whether it failed.
unfoldable pub unlock_bucket : ℕ → M Bool
unfolding get_table release
unlock_bucket index = do
  _ ← get_table
  failed ← gets (λ w. w.unlock_error index)
  if failed
      then pure true
      else do modify (λ w. record w { held = release index w.held }); pure false

-- The loop of `lock_write_list` and `lock_read_list` over the keys that are left: the status, and the
-- marks of the buckets that were locked. An index past the marks is undefined behaviour.
unfoldable pub lock_list : Mode → List Str → List ℕ → M (ℕ × List ℕ)
lock_list mode [] index_list = pure (0, index_list)
lock_list mode (key ∷ keys) index_list = elim (hash key) [
  | negsuc _ ↦ fault
  | pos index ↦
      if not (ltb index (length index_list)) then fault else elim (get_or index_list index 0 == 0) [
        | false ↦ lock_list mode keys index_list
        | true ↦ do
          failed ← lock_bucket mode index
          if failed then pure (1, index_list) else lock_list mode keys (set index_list index 1)
      ]
]

unfoldable pub lock_write_list : List Str → List ℕ → M (ℕ × List ℕ)
unfolding lock_list
lock_write_list = lock_list writing

unfoldable pub lock_read_list : List Str → List ℕ → M (ℕ × List ℕ)
unfolding lock_list
lock_read_list = lock_list reading

-- `unlock_list` from bucket `i`, over the marks from there on.
unfoldable pub unlock_from : ℕ → List ℕ → M ℕ
unlock_from i [] = pure 0
unlock_from i (mark ∷ marks) = elim (mark == 1) [
  | false ↦ unlock_from (i + 1) marks
  | true ↦ do failed ← unlock_bucket i; if failed then pure 1 else unlock_from (i + 1) marks
]

unfoldable pub unlock_list : List ℕ → M ℕ
unlock_list index_list = unlock_from 0 index_list
