-- ===== src/FirstDelivery.antt =====
-- proj_p1: the first delivery, a server of job files without clients. Where its code is that of
-- proj_p2/src/server, the definitions of that code are taken over under the same names. Its nodes have no
-- subscribers; the field `count` of a node is left out, since it is read only where `read_pair` is
-- undefined behaviour. This file has kvs.c.
pub mod Operations
pub mod Parser
pub mod Jobs
pub mod Silent
pub mod Same
pub mod Read
pub mod Backup
pub mod Ends
pub mod Directory
use ist_key_value_store.Prelude.{ℕ, [], ◌∷◌, Option, none, some, Bool, ℤ, not, ◌&&◌, if◌then◌else◌}
use ist_key_value_store.CString.{Str}
use ist_key_value_store.Table
use ist_key_value_store.Table.{HashTable, find_node, update_node, unlink_node}
use ist_key_value_store.Machine.{M, pure, fault, ◌>>=◌, ◌>>◌, malloc, bucket_at, set_bucket}
use ist_key_value_store.Kvs

abbrev pub hash : Str → ℤ
hash = Table.hash

abbrev pub create_hash_table : M (Option HashTable)
create_hash_table = Kvs.create_hash_table

abbrev pub free_table : M (Unit {0})
free_table = Kvs.free_table

-- 0 if the pair is written, 1 if memory for a new node ran out.
unfoldable pub write_pair : Str → Str → M ℕ
unfolding bucket_at set_bucket malloc
write_pair key value = do
  let index = hash key
  bucket ← bucket_at index
  elim (find_node key bucket) [
    | some node ↦ do
      copied ← malloc
      if not copied then fault else do
        set_bucket index (update_node key (λ n. record n { value = value }) bucket)
        pure 0
    | none ↦ do
      allocated ← malloc
      if not allocated then pure 1 else do
        key_copied ← malloc
        value_copied ← malloc
        if not (key_copied && value_copied) then pure 1 else do
          set_bucket index (record { key = key; value = value; subscriber = [] } ∷ bucket)
          pure 0
  ]

-- NULL if the key is missing. If it is there, `asprintf` stores a pointer in a `char`, and that `char` is
-- returned as a pointer: undefined behaviour.
unfoldable pub read_pair : Str → M (Option Str)
unfolding bucket_at
read_pair key = do
  bucket ← bucket_at (hash key)
  elim (find_node key bucket) [ some node ↦ fault | none ↦ pure none ]

-- 0 if the pair was deleted, 1 if the key is missing.
unfoldable pub delete_pair : Str → M ℕ
unfolding bucket_at set_bucket
delete_pair key = do
  let index = hash key
  bucket ← bucket_at index
  elim (find_node key bucket) [
    | some node ↦ do set_bucket index (unlink_node key bucket); pure 0
    | none ↦ pure 1
  ]
