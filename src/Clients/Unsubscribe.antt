-- ===== src/Clients/Unsubscribe.antt =====
-- server/operations.c: `kvs_aux_unsubscribe` and `kvs_unsubscribe` on the table.
use ist_key_value_store.Prelude.{
  ℕ, ◌≡◌, refl, none, some, [], Bool-cases, inl, inr, arith, if◌then◌else◌, get_or, Option-cases,
}
use ist_key_value_store.CString.{Str, str_eq}
use ist_key_value_store.CString.Order.{str_eq_iff}
use ist_key_value_store.Table.{HashTable, KeyNode, hash, update_node, is_subscribed, remove_fd}
use ist_key_value_store.Table.Hash.{IsHashable, slot, hash-eq-pos}
use ist_key_value_store.Table.Bucket.{find_node-update_node, count_key-update_node}
use ist_key_value_store.Table.View.{
  bucket_of, node_of, view, subscribers_of, IsWellFormed, with_bucket, in_table,
  node_of-with_bucket, with_bucket-IsWellFormed, view-changed, subscribers_of-changed,
}
use ist_key_value_store.Machine.{World, Client, live}
use ist_key_value_store.Kvs.{remove_subscriber}
use ist_key_value_store.Kvs.SubscriberList.{remove_fd-absent}
use ist_key_value_store.Locks.{lock_bucket, unlock_bucket, release}
use ist_key_value_store.Locks.Holding.{IsReady}
use ist_key_value_store.Clients.{get_client, kvs_aux_unsubscribe, unsubscribe_node}

remove_subscriber-remove_fd :
    (node : KeyNode) (fd : ℕ)
    → remove_subscriber node fd ≡ (
      (if is_subscribed fd node.subscriber then 0 else 1),
      record node { subscriber = remove_fd fd node.subscriber },
    )
unfolding remove_subscriber
remove_subscriber-remove_fd node fd = elim (Bool-cases (is_subscribed fd node.subscriber)) [
  | inl there ↦ rw there refl
  | inr absent ↦ rw (absent, remove_fd-absent fd node.subscriber absent) refl
]

module _ (w : World) (t : HashTable) (a : ℕ) (c : Client) (key : Str) where
  -- What the removal of the client's pipe from the list of `key` leaves.
  pub record Unsubscribes (t' : HashTable) : Type 0 where
    pub run :
        kvs_aux_unsubscribe key a w
        ≡ some (
          (if is_subscribed c.fd_notif (subscribers_of t key) then 0 else 1),
          record w { kvs_table = live t' },
        )
    pub well_formed : IsWellFormed t'
    pub reads : (j : Str) → view t' j ≡ view t j
    pub subscribers :
        (j : Str)
        → subscribers_of t' j ≡ (
            if str_eq key j
            then remove_fd c.fd_notif (subscribers_of t key)
            else subscribers_of t j)

  module _ (r : IsReady w t) (at : get_or w.sessions.heap a none ≡ some c) (wf : IsWellFormed t)
      (ok_key : IsHashable key) where
    unsubscribe_absent : node_of t key ≡ none → Unsubscribes t
    unsubscribe_absent absent = record {
      run =
          unfold kvs_aux_unsubscribe unsubscribe_node lock_bucket unlock_bucket release get_client
            node_of subscribers_of is_subscribed in
          ground (
            arith,
            absent,
            at,
            r.at,
            r.locks (slot (hash key)),
            r.unlocks (slot (hash key)),
            hash-eq-pos key ok_key,
            in_table t wf key ok_key [],
          );
      well_formed = wf;
      reads = λ j. refl;
      subscribers =
          λ j. unfold subscribers_of remove_fd in ground (arith, absent, str_eq_iff key j);
    }

    unsubscribe_present :
        (old : KeyNode)
        → node_of t key ≡ some old
        → Unsubscribes (
            with_bucket t key (
              update_node key
                (λ n. record n { subscriber = remove_fd c.fd_notif old.subscriber })
                (bucket_of t key)))
    unsubscribe_present old found =
        let removed = remove_fd c.fd_notif old.subscriber in
        let b = update_node key (λ n. record n { subscriber = removed }) (bucket_of t key) in
        let new : KeyNode = record old { subscriber = removed } in
        let changed = node_of-with_bucket t wf key ok_key b (some new) (λ j.
          unfold node_of in
          ground (
            arith,
            found,
            find_node-update_node key j (λ n. record n { subscriber = removed }) (λ n. refl)
                (bucket_of t key),
          )) in
        record {
          run =
              unfold kvs_aux_unsubscribe unsubscribe_node lock_bucket unlock_bucket release
                get_client node_of subscribers_of in
              ground (
                arith,
                found,
                at,
                r.at,
                r.locks (slot (hash key)),
                r.unlocks (slot (hash key)),
                hash-eq-pos key ok_key,
                in_table t wf key ok_key b,
                remove_subscriber-remove_fd old c.fd_notif,
              );
          well_formed = with_bucket-IsWellFormed t wf key ok_key b (λ j. ground (
            arith,
            wf.placed j (slot (hash key)),
            count_key-update_node key j (λ n. record n { subscriber = removed }) (λ n. refl)
                (bucket_of t key),
            str_eq_iff key j,
          ));
          reads = λ j.
              unfold view in
              ground (
                arith,
                found,
                view-changed t (with_bucket t key b) key (some new) changed j,
                str_eq_iff key j,
              );
          subscribers = λ j.
              unfold subscribers_of in
              ground (
                arith,
                found,
                subscribers_of-changed t (with_bucket t key b) key (some new) changed j,
                str_eq_iff key j,
              );
        }

    -- `kvs_aux_unsubscribe` of a key that has a bucket, by a client that is not freed, on a well-formed
    -- table with locks that do not fail, returns 0 exactly if the client's pipe was on the list of the
    -- key and 1 otherwise; it removes the pipe from that list, and changes no value, no other list and
    -- none of the locks that were held before.
    pub kvs_aux_unsubscribe-Unsubscribes : (t' : HashTable) × Unsubscribes t'
    kvs_aux_unsubscribe-Unsubscribes = elim (Option-cases (node_of t key)) [
      | inl absent ↦ (_, unsubscribe_absent absent)
      | inr (old, found) ↦ (_, unsubscribe_present old found)
    ]
