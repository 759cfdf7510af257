-- ===== src/Clients/Subscribe.antt =====
-- server/operations.c: `kvs_subscribe` on the table, the client's list and the response pipe.
use ist_key_value_store.Prelude.{
  ℕ, ◌≡◌, refl, Option, none, some, [], ◌∷◌, ◌++◌, false, Bool-cases, inl, inr, arith,
  if◌then◌else◌, get_or, Option-cases, pos, set,
}
use ist_key_value_store.CString.{Str, str_eq}
use ist_key_value_store.CString.Order.{str_eq_iff}
use ist_key_value_store.Table.{HashTable, KeyNode, Subscribers, hash, update_node, is_subscribed}
use ist_key_value_store.Table.Hash.{IsHashable, slot, hash-eq-pos}
use ist_key_value_store.Table.Bucket.{find_node-update_node, count_key-update_node}
use ist_key_value_store.Table.View.{
  bucket_of, node_of, view, subscribers_of, IsWellFormed, with_bucket, in_table,
  node_of-with_bucket, with_bucket-IsWellFormed, view-changed, subscribers_of-changed,
}
use ist_key_value_store.Machine.{World, Client, live, malloc}
use ist_key_value_store.Kvs.{add_subscriber}
use ist_key_value_store.Locks.{lock_bucket, unlock_bucket, release}
use ist_key_value_store.Locks.Holding.{IsReady}
use ist_key_value_store.Clients.{
  get_client, put_client, write_to_resp_pipe, is_invalid, subscribe_node, record_subscription,
  kvs_subscribe, op_code_subscribe,
}

-- The list of a key once the pipe is on it: last, unless it was there.
abbrev pub subscribed : ℕ → Subscribers → Subscribers
subscribed fd ss = if is_subscribed fd ss then ss else ss ++ fd ∷ []

-- The list of a key with its value: a missing key has no list.
abbrev pub list_for : Option Str → ℕ → Subscribers → Subscribers
list_for none fd ss = ss
list_for (some _) fd ss = subscribed fd ss

-- What the client is told.
abbrev pub subscribe_result : Option Str → ℕ
subscribe_result none = b'0'
subscribe_result (some _) = b'1'

module _ (w : World) (t : HashTable) (a : ℕ) (c : Client) (key : Str) where
  -- What the subscription of `key` leaves.
  pub record Subscribes (t' : HashTable) : Type 0 where
    pub run :
        kvs_subscribe key a w
        ≡ some (
          pos 0,
          record w {
            kvs_table = live t';
            sessions = record w.sessions {
              heap =
                  if is_subscribed c.fd_notif (subscribers_of t key)
                  then w.sessions.heap
                  else set w.sessions.heap a
                      (some (record c { subscriptions = key ∷ c.subscriptions }));
              responses =
                  w.sessions.responses
                  ++ (c.fd_resp, op_code_subscribe)
                    ∷ (c.fd_resp, subscribe_result (view t key))
                    ∷ [];
            };
          },
        )
    pub well_formed : IsWellFormed t'
    pub reads : (j : Str) → view t' j ≡ view t j
    pub subscribers :
        (j : Str)
        → subscribers_of t' j ≡ (
            if str_eq key j
            then list_for (view t key) c.fd_notif (subscribers_of t key)
            else subscribers_of t j)

  module _ (r : IsReady w t) (at : get_or w.sessions.heap a none ≡ some c) (memory : w.allocs ≡ [])
      (writes : w.sessions.write_error c.fd_resp ≡ false) (wf : IsWellFormed t)
      (valid : is_invalid key ≡ false) (ok_key : IsHashable key) where
    subscribe_absent : node_of t key ≡ none → Subscribes t
    subscribe_absent absent = record {
      run =
          unfold kvs_subscribe subscribe_node lock_bucket unlock_bucket release get_client node_of
            view subscribers_of is_subscribed write_to_resp_pipe record_subscription put_client
            malloc in
          ground (
            arith,
            absent,
            at,
            writes,
            valid,
            memory,
            r.at,
            r.locks (slot (hash key)),
            r.unlocks (slot (hash key)),
            hash-eq-pos key ok_key,
            in_table t wf key ok_key [],
          );
      well_formed = wf;
      reads = λ j. refl;
      subscribers = λ j. unfold subscribers_of view in ground (arith, absent, str_eq_iff key j);
    }

    subscribe_present :
        (old : KeyNode)
        → node_of t key ≡ some old
        → Subscribes (
            with_bucket t key (
              update_node key
                (λ n. record n { subscriber = subscribed c.fd_notif old.subscriber })
                (bucket_of t key)))
    subscribe_present old found =
        let ss = subscribed c.fd_notif old.subscriber in
        let b = update_node key (λ n. record n { subscriber = ss }) (bucket_of t key) in
        let new : KeyNode = record old { subscriber = ss } in
        let changed = node_of-with_bucket t wf key ok_key b (some new) (λ j.
          unfold node_of in
          ground (
            arith,
            found,
            find_node-update_node key j (λ n. record n { subscriber = ss }) (λ n. refl)
                (bucket_of t key),
          )) in
        record {
          run = elim (Bool-cases (is_subscribed c.fd_notif old.subscriber)) [
            | inl there ↦
                unfold kvs_subscribe subscribe_node lock_bucket unlock_bucket release get_client
                  node_of view subscribers_of write_to_resp_pipe add_subscriber malloc in
                ground (
                  arith,
                  found,
                  there,
                  at,
                  writes,
                  valid,
                  memory,
                  r.at,
                  r.locks (slot (hash key)),
                  r.unlocks (slot (hash key)),
                  hash-eq-pos key ok_key,
                  in_table t wf key ok_key b,
                )
            | inr new_pipe ↦
                unfold kvs_subscribe subscribe_node lock_bucket unlock_bucket release get_client
                  node_of view subscribers_of write_to_resp_pipe add_subscriber malloc
                  record_subscription put_client in
                ground (
                  arith,
                  found,
                  new_pipe,
                  at,
                  writes,
                  valid,
                  memory,
                  r.at,
                  r.locks (slot (hash key)),
                  r.unlocks (slot (hash key)),
                  hash-eq-pos key ok_key,
                  in_table t wf key ok_key b,
                )
          ];
          well_formed = with_bucket-IsWellFormed t wf key ok_key b (λ j. ground (
            arith,
            wf.placed j (slot (hash key)),
            count_key-update_node key j (λ n. record n { subscriber = ss }) (λ n. refl)
                (bucket_of t key),
            str_eq_iff key j,
          ));
          reads = λ j.
              unfold view in
              ground (
                arith,
                found,
                view-changed t (with_bucket t key b) key (some new) changed j,
                str_eq_iff key j,
              );
          subscribers = λ j.
              unfold subscribers_of view in
              ground (
                arith,
                found,
                subscribers_of-changed t (with_bucket t key b) key (some new) changed j,
                str_eq_iff key j,
              );
        }

    -- `kvs_subscribe` of a valid key that has a bucket, by a client that is not freed, on a well-formed
    -- table with memory, locks and a response pipe that do not fail, returns 0 and tells the client 1 if
    -- the key exists and 0 if it is missing; the client's pipe is then on the list of an existing key,
    -- last unless it was there before, no value and no other list changes, and the key is put on the
    -- client's own list unless the pipe was on the list of the key before.
    pub kvs_subscribe-Subscribes : (t' : HashTable) × Subscribes t'
    kvs_subscribe-Subscribes = elim (Option-cases (node_of t key)) [
      | inl absent ↦ (_, subscribe_absent absent)
      | inr (old, found) ↦ (_, subscribe_present old found)
    ]
