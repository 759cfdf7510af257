-- ===== src/Clients.antt =====
-- proj_p2/src/server/operations.c and server/io.c: the sessions of clients. A client is known by its
-- address in `heap`; an access to a client that was freed is undefined behaviour.
pub mod Session
pub mod Subscribe
pub mod Unsubscribe
pub mod Forget
pub mod Tracking
use ist_key_value_store.Prelude.{
  ℕ, zero, suc, ◌+◌, List, [], ◌∷◌, ◌++◌, Option, none, some, Bool, true, false, ℤ, pos, negsuc,
  ltb, leb, ◌==◌, ◌&&◌, ◌||◌, not, get_or, set, length, if◌then◌else◌,
}
use ist_key_value_store.CString.{Str, str_eq, strlen}
use ist_key_value_store.Table.{KeyNode, hash, find_node, update_node}
use ist_key_value_store.Machine.{
  M, World, Client, Sessions, writing, pure, fault, ◌>>=◌, ◌>>◌, gets, modify, malloc, bucket_at,
  set_bucket,
}
use ist_key_value_store.Kvs.{add_subscriber, remove_subscriber}
use ist_key_value_store.Locks.{lock_bucket, unlock_bucket}
use ist_key_value_store.Operations.{max_string_size}

abbrev pub op_code_connect : ℕ
op_code_connect = b'1'

abbrev pub op_code_disconnect : ℕ
op_code_disconnect = b'2'

abbrev pub op_code_subscribe : ℕ
op_code_subscribe = b'3'

abbrev pub op_code_unsubscribe : ℕ
op_code_unsubscribe = b'4'

-- A read through a pointer to a client.
unfoldable pub get_client : ℕ → M Client
get_client a w = elim (get_or w.sessions.heap a none) [ none ↦ none | some c ↦ some (c, w) ]

-- The client at `a` is changed, or freed.
unfoldable pub put_client : ℕ → Option Client → M (Unit {0})
put_client a c =
    modify (λ w. record w { sessions = record w.sessions { heap = set w.sessions.heap a c } })

-- The operation code and the result, one byte each: 1 if a write fails.
unfoldable pub write_to_resp_pipe : ℕ → ℕ → ℕ → M ℕ
write_to_resp_pipe fd opcode result = do
  failed ← gets (λ w. w.sessions.write_error fd)
  if failed then pure 1 else do
    modify (λ w. record w {
      sessions = record w.sessions {
        responses = w.sessions.responses ++ (fd, opcode) ∷ (fd, result) ∷ [];
      };
    })
    pure 0

-- `close`: whether it failed.
unfoldable pub close : ℕ → M Bool
close fd = do
  modify (λ w. record w { sessions = record w.sessions { closed = w.sessions.closed ++ fd ∷ [] } })
  gets (λ w. w.sessions.close_error fd)

-- The test for an invalid key.
abbrev pub is_invalid : Str → Bool
is_invalid key = strlen key == 0 || ltb max_string_size (strlen key)

-- The key is put in front of the client's list; -1 without memory.
unfoldable pub record_subscription : ℕ → Str → M Bool
unfolding malloc get_client put_client
record_subscription a key = do
  allocated ← malloc
  if not allocated then pure false else do
    copied ← malloc
    if not copied then pure false else do
      c ← get_client a
      put_client a (some (record c { subscriptions = key ∷ c.subscriptions }))
      pure true

-- The search of `kvs_subscribe` in the bucket: the status of `add_subscriber`, 0 if the key is missing,
-- and the result that the client is told.
unfoldable pub subscribe_node : Str → ℕ → ℕ → M (ℤ × ℕ)
unfolding bucket_at set_bucket add_subscriber
subscribe_node key index fd = do
  bucket ← bucket_at (pos index)
  elim (find_node key bucket) [
    | none ↦ pure (pos 0, b'0')
    | some node ↦ do
      (status, node') ← add_subscriber node fd
      set_bucket (pos index)
          (update_node key (λ n. record n { subscriber = node'.subscriber }) bucket)
      pure (status, b'1')
  ]

abbrev is_new : ℤ → Bool
is_new (pos zero) = true
is_new _ = false

unfoldable pub kvs_subscribe : Str → ℕ → M ℤ
unfolding get_client write_to_resp_pipe lock_bucket unlock_bucket subscribe_node record_subscription
kvs_subscribe key a = do
  c ← get_client a
  elim (is_invalid key) [
    | true ↦ do _ ← write_to_resp_pipe c.fd_resp op_code_subscribe b'0'; pure (pos 0)
    | false ↦ elim (hash key) [
      | negsuc _ ↦ fault
      | pos index ↦ do
        failed ← lock_bucket writing index
        if failed then pure (negsuc 0) else do
          (status, result) ← subscribe_node key index c.fd_notif
          _ ← unlock_bucket index
          recorded ← if is_new status then record_subscription a key else pure true
          if not recorded then pure (negsuc 0) else do
            written ← write_to_resp_pipe c.fd_resp op_code_subscribe result
            pure (if written == 1 then negsuc 0 else pos 0)
    ]
  ]

-- The search of `kvs_aux_unsubscribe` in the bucket: 0 if the pipe was on the list of the key.
unfoldable pub unsubscribe_node : Str → ℕ → ℕ → M ℕ
unfolding bucket_at set_bucket remove_subscriber
unsubscribe_node key index fd = do
  bucket ← bucket_at (pos index)
  elim (find_node key bucket) [
    | none ↦ pure 1
    | some node ↦ do
      let (result, node') = remove_subscriber node fd
      set_bucket (pos index)
          (update_node key (λ n. record n { subscriber = node'.subscriber }) bucket)
      pure result
  ]

-- A lock that cannot be taken is only reported.
unfoldable pub kvs_aux_unsubscribe : Str → ℕ → M ℕ
unfolding get_client lock_bucket unlock_bucket unsubscribe_node
kvs_aux_unsubscribe key a = elim (hash key) [
  | negsuc _ ↦ fault
  | pos index ↦ do
    _ ← lock_bucket writing index
    c ← get_client a
    result ← unsubscribe_node key index c.fd_notif
    _ ← unlock_bucket index
    pure result
]

-- All entries with the key are unlinked.
unfoldable pub remove_key : Str → List Str → List Str
remove_key key [] = []
remove_key key (k ∷ ks) = if str_eq k key then remove_key key ks else k ∷ remove_key key ks

unfoldable pub client_remove_subscription : Str → ℕ → M (Unit {0})
unfolding get_client put_client
client_remove_subscription key a = do
  c ← get_client a
  put_client a (some (record c { subscriptions = remove_key key c.subscriptions }))

unfoldable pub kvs_unsubscribe : Str → ℕ → M ℕ
unfolding get_client write_to_resp_pipe client_remove_subscription kvs_aux_unsubscribe
kvs_unsubscribe key a = do
  c ← get_client a
  elim (is_invalid key) [
    | true ↦ do _ ← write_to_resp_pipe c.fd_resp op_code_unsubscribe 1; pure 0
    | false ↦ do
      client_remove_subscription key a
      missing ← kvs_aux_unsubscribe key a
      written ←
          write_to_resp_pipe c.fd_resp op_code_unsubscribe (if missing == 0 then b'0' else b'1')
      pure (if written == 1 then 1 else 0)
  ]
