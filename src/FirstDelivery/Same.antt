-- ===== src/FirstDelivery/Same.antt =====
-- proj_p1/operations.c and proj_p2/src/server/operations.c: both deliveries write and delete the same.
use ist_key_value_store.Prelude.{
  ℕ, ◌≡◌, refl, List, [], ◌∷◌, Option, none, some, Bool, true, false, ℤ, map, not, ◌&&◌, ◌==◌,
  if◌then◌else◌,
}
use ist_key_value_store.CString.{Str, snprintf}
use ist_key_value_store.Table.{
  Bucket, KeyNode, Subscribers, hash, find_node, update_node, unlink_node,
}
use ist_key_value_store.Machine.{
  M, World, Sent, TablePointer, writing, pure, fault, ◌>>=◌, ◌>>◌, gets, malloc, bucket_at,
  set_bucket, write_out,
}
use ist_key_value_store.Kvs
use ist_key_value_store.Kvs.{notify_subscribers, delete_text}
use ist_key_value_store.Locks.{no_marks, lock_write_list, lock_list, unlock_list}
use ist_key_value_store.Operations
use ist_key_value_store.Operations.{
  Pair, is_null, compare_pairs, compare_keys, entry, kvsmissing, max_write_size,
}
use ist_key_value_store.Operations.Sort.{qsort}
use ist_key_value_store.FirstDelivery.{write_pair, delete_pair}
use ist_key_value_store.FirstDelivery.Operations.{write_pairs, kvs_write, delete_pairs, kvs_delete}
use ist_key_value_store.FirstDelivery.Silent.{
  Same, unsent, bind-Same, pure-Same, if-Same, table-Same, malloc-Same, bucket_at-Same,
  set_bucket-Same, write_out-Same, notify_subscribers-Same, lock_list-Same, unlock_list-Same,
}

-- A change of a bucket, and the notifications of the second delivery behind or before it.
changed :
    (index : ℤ) (bucket : Bucket) (fds : Subscribers) (key value : Str)
    → Same {A = ℕ}
        (set_bucket index bucket >> pure 0)
        (set_bucket index bucket >> (notify_subscribers fds key value >> pure 0))
changed index bucket fds key value =
    bind-Same (set_bucket index bucket) (set_bucket index bucket) _ _ (set_bucket-Same index bucket)
      (λ _.
        bind-Same (pure tt) (notify_subscribers fds key value) (λ _. pure 0) (λ _. pure 0)
          (notify_subscribers-Same fds key value) (λ _. pure-Same 0))

unlinked :
    (index : ℤ) (bucket : Bucket) (fds : Subscribers) (key value : Str)
    → Same {A = ℕ}
        (set_bucket index bucket >> pure 0)
        (notify_subscribers fds key value >> (set_bucket index bucket >> pure 0))
unlinked index bucket fds key value =
    bind-Same (pure tt) (notify_subscribers fds key value) (λ _. set_bucket index bucket >> pure 0)
      (λ _. set_bucket index bucket >> pure 0) (notify_subscribers-Same fds key value)
      (λ _.
        bind-Same (set_bucket index bucket) (set_bucket index bucket) _ _
          (set_bucket-Same index bucket) (λ _. pure-Same 0))

inserted :
    (index : ℤ) (bucket : Bucket)
    → let insert : M ℕ = do
      allocated ← malloc
      if not allocated then pure 1 else do
        key_copied ← malloc
        value_copied ← malloc
        if not (key_copied && value_copied) then pure 1 else do set_bucket index bucket; pure 0
      in Same insert insert
inserted index bucket = bind-Same malloc malloc _ _ malloc-Same λ allocated.
    if-Same (not allocated) (pure 1) (pure 1) _ _ (pure-Same 1) (
      bind-Same malloc malloc _ _ malloc-Same λ key_copied.
        bind-Same malloc malloc _ _ malloc-Same λ value_copied.
          if-Same (not (key_copied && value_copied)) (pure 1) (pure 1) _ _ (pure-Same 1) (
            bind-Same (set_bucket index bucket) (set_bucket index bucket) _ _
              (set_bucket-Same index bucket) (λ _. pure-Same 0)))

-- `write_pair` of both deliveries, once the bucket is searched.
write_found :
    (index : ℤ) (key value : Str) (bucket : Bucket) (o : Option KeyNode)
    → let value_set = update_node key (λ n. record n { value = value }) bucket in
      let inserted_node : Bucket = record { key = key; value = value; subscriber = [] } ∷ bucket in
      let insert : M ℕ = do
        allocated ← malloc
        if not allocated then pure 1 else do
          key_copied ← malloc
          value_copied ← malloc
          if not (key_copied && value_copied)
              then pure 1
              else do set_bucket index inserted_node; pure 0
      in let first : M ℕ = elim o [
        | some node ↦ do
          copied ← malloc
          if not copied then fault else do set_bucket index value_set; pure 0
        | none ↦ insert
      ] in
        let second : M ℕ = elim o [
          | some node ↦ do
            copied ← malloc
            if not copied then fault else do
              set_bucket index value_set
              notify_subscribers node.subscriber key value
              pure 0
          | none ↦ insert
        ] in
        Same first second
write_found index key value bucket none =
    inserted index (record { key = key; value = value; subscriber = [] } ∷ bucket)
write_found index key value bucket (some node) = bind-Same malloc malloc _ _ malloc-Same λ copied.
    if-Same {A = ℕ} (not copied) fault fault _ _ (λ w s. refl)
      (changed index (update_node key (λ n. record n { value = value }) bucket) node.subscriber key
        value)

pub write_pair-Same : (key value : Str) → Same (write_pair key value) (Kvs.write_pair key value)
unfolding write_pair Kvs.write_pair
write_pair-Same key value =
    bind-Same (bucket_at (hash key)) (bucket_at (hash key)) _ _ (bucket_at-Same (hash key))
      (λ bucket. write_found (hash key) key value bucket (find_node key bucket))

delete_found :
    (index : ℤ) (key : Str) (bucket : Bucket) (o : Option KeyNode)
    → let first : M ℕ = elim o [
      | some node ↦ do set_bucket index (unlink_node key bucket); pure 0
      | none ↦ pure 1
    ] in
      let second : M ℕ = elim o [
        | some node ↦ do
          notify_subscribers node.subscriber key delete_text
          set_bucket index (unlink_node key bucket)
          pure 0
        | none ↦ pure 1
      ] in
      Same first second
delete_found index key bucket none = pure-Same 1
delete_found index key bucket (some node) =
    unlinked index (unlink_node key bucket) node.subscriber key delete_text

pub delete_pair-Same : (key : Str) → Same (delete_pair key) (Kvs.delete_pair key)
unfolding delete_pair Kvs.delete_pair
delete_pair-Same key =
    bind-Same (bucket_at (hash key)) (bucket_at (hash key)) _ _ (bucket_at-Same (hash key))
      (λ bucket. delete_found (hash key) key bucket (find_node key bucket))

write_pairs-Same : (pairs : List Pair) → Same (write_pairs pairs) (Operations.write_pairs pairs)
unfolding write_pairs Operations.write_pairs
write_pairs-Same [] = pure-Same tt
write_pairs-Same ((key, value) ∷ pairs) =
    bind-Same (write_pair key value) (Kvs.write_pair key value) _ _ (write_pair-Same key value)
      (λ _. write_pairs-Same pairs)

-- A command that locks the buckets of its keys for its work, and then does what is behind it.
abbrev locked : {A : Type 0} → M A → (A → List ℕ → M ℕ) → ℕ × List ℕ → M ℕ
locked work behind (failed, index_list) =
    if not (failed == 0) then pure 1 else do a ← work; behind a index_list

abbrev on_table : {A : Type 0} → List Str → M A → (A → List ℕ → M ℕ) → TablePointer → M ℕ
on_table keys work behind table =
    if is_null table then pure 1 else lock_list writing keys no_marks >>= locked work behind

abbrev command : {A : Type 0} → List Str → M A → (A → List ℕ → M ℕ) → M ℕ
command keys work behind = gets (λ w. w.kvs_table) >>= on_table keys work behind

command-Same :
    {A : Type 0} (keys : List Str) (work₁ work₂ : M A) (behind : A → List ℕ → M ℕ)
    → Same work₁ work₂
    → ((a : A) (index_list : List ℕ) → Same (behind a index_list) (behind a index_list))
    → Same (command keys work₁ behind) (command keys work₂ behind)
command-Same keys work₁ work₂ behind h k =
    let lock = lock_list writing keys no_marks in
    bind-Same (gets (λ w. w.kvs_table)) (gets (λ w. w.kvs_table)) (on_table keys work₁ behind)
      (on_table keys work₂ behind) table-Same
      λ table.
        if-Same (is_null table) (pure 1) (pure 1) (lock >>= locked work₁ behind)
          (lock >>= locked work₂ behind) (pure-Same 1)
          (bind-Same lock lock (locked work₁ behind) (locked work₂ behind)
            (lock_list-Same writing keys no_marks)
            λ r.
              if-Same (not (r.0 == 0)) (pure 1) (pure 1) (work₁ >>= λ a. behind a r.1)
                (work₂ >>= λ a. behind a r.1) (pure-Same 1)
                (bind-Same work₁ work₂ (λ a. behind a r.1) (λ a. behind a r.1) h (λ a. k a r.1)))

-- In any state of the model, where an unchecked copy that fails is undefined behaviour.
kvs_write-Same : (pairs : List Pair) → Same (kvs_write pairs) (Operations.kvs_write pairs)
unfolding kvs_write Operations.kvs_write lock_write_list
kvs_write-Same pairs =
    let sorted = qsort compare_pairs pairs in
    command-Same (map (λ p. p.0) sorted) (write_pairs sorted) (Operations.write_pairs sorted)
      (λ _ index_list. unlock_list index_list) (write_pairs-Same sorted)
      (λ _ index_list. unlock_list-Same index_list)

-- `kvs_write` of both deliveries, while memory does not run out, returns the same and leaves the same
-- state, but for the notifications that the second sends: in any other state, also where the table is
-- missing or a lock cannot be taken or given back.
pub unsent-kvs_write :
    (pairs : List Pair) (w : World) (s : List Sent)
    → w.allocs ≡ []
    → unsent (kvs_write pairs w) ≡ unsent (Operations.kvs_write pairs (record w { sent = s }))
unsent-kvs_write pairs w s memory = kvs_write-Same pairs w s

-- The brackets and the entries of the missing keys.
delete_next :
    (found : Bool) (text : Str) (aux : Bool) (loop₁ loop₂ : Bool → M Bool)
    → ((aux : Bool) → Same (loop₁ aux) (loop₂ aux))
    → let next : (Bool → M Bool) → M Bool = λ loop. elim found [
      | true ↦ loop aux
      | false ↦ do if aux then pure tt else write_out (b'[' ∷ []); write_out text; loop true
    ] in
      Same (next loop₁) (next loop₂)
delete_next true text aux loop₁ loop₂ ih = ih aux
delete_next false text aux loop₁ loop₂ ih =
    let open_bracket : M (Unit {0}) = if aux then pure tt else write_out (b'[' ∷ []) in
    bind-Same open_bracket open_bracket _ _
      (if-Same aux (pure tt) (pure tt) (write_out (b'[' ∷ [])) (write_out (b'[' ∷ []))
        (pure-Same tt) (write_out-Same (b'[' ∷ [])))
      (λ _. bind-Same (write_out text) (write_out text) _ _ (write_out-Same text) (λ _. ih true))

delete_pairs-Same :
    (keys : List Str) (aux : Bool) → Same (delete_pairs keys aux) (Operations.delete_pairs keys aux)
unfolding delete_pairs Operations.delete_pairs
delete_pairs-Same [] aux = pure-Same aux
delete_pairs-Same (key ∷ keys) aux =
    bind-Same (delete_pair key) (Kvs.delete_pair key) _ _ (delete_pair-Same key) (λ status.
      delete_next (status == 0) (snprintf max_write_size (entry key kvsmissing)) aux
        (delete_pairs keys) (Operations.delete_pairs keys) (delete_pairs-Same keys))

-- The closing bracket.
abbrev close_bracket : Bool → M (Unit {0})
close_bracket missing = if missing then write_out (b']' ∷ b'\n' ∷ []) else pure tt

close_bracket-Same : (missing : Bool) → Same (close_bracket missing) (close_bracket missing)
close_bracket-Same true = write_out-Same (b']' ∷ b'\n' ∷ [])
close_bracket-Same false = pure-Same tt

-- `kvs_delete` of both deliveries returns the same, writes the same text and leaves the same state, but
-- for the notifications that the second sends: in any state, also where the table or a lock is missing.
pub unsent-kvs_delete :
    (keys : List Str) (w : World) (s : List Sent)
    → unsent (kvs_delete keys w) ≡ unsent (Operations.kvs_delete keys (record w { sent = s }))
unfolding kvs_delete Operations.kvs_delete lock_write_list
unsent-kvs_delete keys w s =
    let sorted = qsort compare_keys keys in
    command-Same sorted (delete_pairs sorted false) (Operations.delete_pairs sorted false)
      (λ missing index_list. close_bracket missing >> unlock_list index_list)
      (delete_pairs-Same sorted false)
      (λ missing index_list.
        bind-Same (close_bracket missing) (close_bracket missing) (λ _. unlock_list index_list)
          (λ _. unlock_list index_list) (close_bracket-Same missing)
          (λ _. unlock_list-Same index_list))
      w s
