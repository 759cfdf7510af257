-- ===== src/Kvs.antt =====
-- proj_p2/src/server/kvs.c: the operations on one pair or one subscriber list.
pub mod Create
pub mod Notices
pub mod Pairs
pub mod Failures
pub mod SubscriberList
use ist_key_value_store.Prelude.{
  ℕ, zero, suc, ◌+◌, List, [], ◌∷◌, ◌++◌, Option, none, some, Bool, true, false, ℤ, pos, negsuc,
  replicate, not, ◌&&◌, if◌then◌else◌,
}
use ist_key_value_store.CString.{Str}
use ist_key_value_store.Table.{
  Subscribers, KeyNode, HashTable, table_size, hash, find_node, update_node, unlink_node,
  is_subscribed, remove_fd,
}
use ist_key_value_store.Machine.{
  M, World, live, freed, get_table, pure, fault, ◌>>=◌, ◌>>◌, gets, modify, malloc, bucket_at,
  set_bucket, send,
}

-- KEY_MESSAGE_SIZE
abbrev pub key_message_size : ℕ
key_message_size = 41

-- The loop over the bucket locks, from `i` for `n` rounds: whether every `pthread_rwlock_init` worked.
init_locks : ℕ → ℕ → M Bool
init_locks zero i = pure true
init_locks (suc n) i = do
  failed ← gets (λ w. w.init_error i)
  if failed then pure false else init_locks n (i + 1)

unfoldable pub create_hash_table : M (Option HashTable)
unfolding malloc init_locks
create_hash_table = do
  ht ← malloc
  if not ht then pure none else do
    locks ← malloc
    if not locks then pure none else do
      initialised ← init_locks table_size 0
      pure (if initialised then some (record { table = replicate table_size [] }) else none)

-- The loop of `notify_subscribers`: the key, then the value, to each pipe. A failed write is only
-- reported, and the loop goes on.
unfoldable pub notify_subscribers : Subscribers → Str → Str → M (Unit {0})
unfolding send
notify_subscribers [] key value = pure tt
notify_subscribers (fd ∷ next) key value = do
  send fd key key_message_size
  send fd value key_message_size
  notify_subscribers next key value

-- The string that `delete_pair` sends in place of a value.
abbrev pub delete_text : Str
delete_text = b'D' ∷ b'E' ∷ b'L' ∷ b'E' ∷ b'T' ∷ b'E' ∷ []

-- 0 if the pair is written, 1 if memory for a new node ran out.
unfoldable pub write_pair : Str → Str → M ℕ
unfolding bucket_at set_bucket malloc
write_pair key value = do
  let index = hash key
  bucket ← bucket_at index
  elim (find_node key bucket) [
    | some node ↦ do
      copied ← malloc
      if not copied then fault else do
        set_bucket index (update_node key (λ n. record n { value = value }) bucket)
        notify_subscribers node.subscriber key value
        pure 0
    | none ↦ do
      allocated ← malloc
      if not allocated then pure 1 else do
        key_copied ← malloc
        value_copied ← malloc
        if not (key_copied && value_copied) then pure 1 else do
          set_bucket index (record { key = key; value = value; subscriber = [] } ∷ bucket)
          pure 0
  ]

-- A copy of the value; NULL if the key is missing or the copy cannot be allocated.
unfoldable pub read_pair : Str → M (Option Str)
unfolding bucket_at malloc
read_pair key = do
  bucket ← bucket_at (hash key)
  elim (find_node key bucket) [
    | some node ↦ do copied ← malloc; pure (if copied then some node.value else none)
    | none ↦ pure none
  ]

-- 0 if the pair was deleted, 1 if the key is missing.
unfoldable pub delete_pair : Str → M ℕ
unfolding bucket_at set_bucket
delete_pair key = do
  let index = hash key
  bucket ← bucket_at index
  elim (find_node key bucket) [
    | some node ↦ do
      notify_subscribers node.subscriber key delete_text
      set_bucket index (unlink_node key bucket)
      pure 0
    | none ↦ pure 1
  ]

-- `keyNode` is not NULL at the calls: 0 if added at the end of the list, 1 if already there, -1 if
-- memory ran out.
unfoldable pub add_subscriber : KeyNode → ℕ → M (ℤ × KeyNode)
unfolding malloc
add_subscriber node fd = if is_subscribed fd node.subscriber then pure (pos 1, node) else do
  allocated ← malloc
  pure (
      if allocated
      then (pos 0, record node { subscriber = node.subscriber ++ fd ∷ [] })
      else (negsuc 0, node))

-- 0 if the subscriber was removed, 1 if it is not on the list.
unfoldable pub remove_subscriber : KeyNode → ℕ → ℕ × KeyNode
remove_subscriber node fd =
    if is_subscribed fd node.subscriber
    then (0, record node { subscriber = remove_fd fd node.subscriber })
    else (1, node)

-- The table and all its nodes are freed; `kvs_table` still points to it.
unfoldable pub free_table : M (Unit {0})
unfolding get_table
free_table = do _ ← get_table; modify (λ w. record w { kvs_table = freed })
