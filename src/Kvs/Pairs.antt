-- ===== src/Kvs/Pairs.antt =====
-- server/kvs.c: `write_pair`, `read_pair` and `delete_pair` refine a map from keys to values.
use ist_key_value_store.Prelude.{
  ◌≡◌, inl, inr, refl, none, some, [], ◌∷◌, ◌++◌, arith, if◌then◌else◌, Option-cases, append-nil,
}
use ist_key_value_store.CString.{Str, str_eq}
use ist_key_value_store.CString.Order.{str_eq_iff}
use ist_key_value_store.Table.{HashTable, KeyNode, hash, find_node, unlink_node, update_node}
use ist_key_value_store.Table.Hash.{IsHashable, slot, hash-eq-pos}
use ist_key_value_store.Table.Bucket.{
  count_key, find_node-update_node, count_key-update_node, find_node-unlink_node,
  count_key-unlink_node, count_key-eq-zero,
}
use ist_key_value_store.Table.View.{
  bucket_of, node_of, view, subscribers_of, IsWellFormed, with_bucket, in_table,
  node_of-with_bucket, with_bucket-IsWellFormed, view-changed, subscribers_of-changed,
}
use ist_key_value_store.Machine.{World, live}
use ist_key_value_store.Machine.Rules.{malloc-succeeds, bucket_at-live}
use ist_key_value_store.Kvs.{write_pair, read_pair, delete_pair, delete_text}
use ist_key_value_store.Kvs.Notices.{notices, notify_subscribers-notices}

module _ (w : World) (t : HashTable) (key : Str) where
  -- What an update or an insertion of `value` under `key` leaves, and what it sends.
  pub record Writes (value : Str) (t' : HashTable) : Type 0 where
    pub run :
        write_pair key value w
        ≡ some (
          0,
          record w {
            kvs_table = live t';
            sent = w.sent ++ notices (subscribers_of t key) key value;
          },
        )
    pub well_formed : IsWellFormed t'
    pub reads : (j : Str) → view t' j ≡ (if str_eq key j then some value else view t j)
    pub subscribers : (j : Str) → subscribers_of t' j ≡ subscribers_of t j

  -- What the deletion of `key` leaves, and what it sends.
  pub record Deletes (t' : HashTable) : Type 0 where
    pub run :
        delete_pair key w
        ≡ some (
          elim (view t key) [ none ↦ 1 | some _ ↦ 0 ],
          record w {
            kvs_table = live t';
            sent = w.sent ++ notices (subscribers_of t key) key delete_text;
          },
        )
    pub well_formed : IsWellFormed t'
    pub reads : (j : Str) → view t' j ≡ (if str_eq key j then none else view t j)
    pub subscribers :
        (j : Str) → subscribers_of t' j ≡ (if str_eq key j then [] else subscribers_of t j)

  module _ (at : w.kvs_table ≡ live t) (memory : w.allocs ≡ []) (wf : IsWellFormed t)
      (ok_key : IsHashable key) where
    -- `read_pair` on a well-formed table with memory left returns a copy of the value that the map has
    -- under the key, NULL if it has none, and changes nothing.
    pub read_pair-view : read_pair key w ≡ some (view t key, w)
    unfolding read_pair view node_of
    read_pair-view = ground (
      arith,
      hash-eq-pos key ok_key,
      bucket_at-live w t (slot (hash key)) at (in_table t wf key ok_key (bucket_of t key)),
      malloc-succeeds w memory,
    )

    abbrev fresh_node : Str → KeyNode
    fresh_node value = record { key = key; value = value; subscriber = [] }

    write_new :
        (value : Str)
        → node_of t key ≡ none
        → Writes value (with_bucket t key (fresh_node value ∷ bucket_of t key))
    write_new value absent =
        let b = fresh_node value ∷ bucket_of t key in
        let changed =
          node_of-with_bucket t wf key ok_key b (some (fresh_node value))
            (λ j. unfold find_node in ground arith) in
        record {
          run =
              unfold write_pair node_of subscribers_of in
              ground (
                arith,
                absent,
                hash-eq-pos key ok_key,
                append-nil w.sent,
                in_table t wf key ok_key b,
              );
          well_formed = with_bucket-IsWellFormed t wf key ok_key b (λ j.
              unfold count_key node_of in
              ground (
                arith,
                wf.placed j (slot (hash key)),
                count_key-eq-zero key (bucket_of t key),
                str_eq_iff key j,
              ));
          reads = λ j. view-changed t (with_bucket t key b) key (some (fresh_node value)) changed j;
          subscribers = λ j.
              unfold subscribers_of in
              ground (
                arith,
                absent,
                subscribers_of-changed t (with_bucket t key b) key (some (fresh_node value)) changed
                    j,
                str_eq_iff key j,
              );
        }

    write_old :
        (value : Str) (old : KeyNode)
        → node_of t key ≡ some old
        → Writes value (
            with_bucket t key (update_node key (λ n. record n { value = value }) (bucket_of t key)))
    write_old value old found =
        let b = update_node key (λ n. record n { value = value }) (bucket_of t key) in
        let new : KeyNode = record old { value = value } in
        let changed = node_of-with_bucket t wf key ok_key b (some new) (λ j.
          unfold node_of in
          ground (
            arith,
            found,
            find_node-update_node key j (λ n. record n { value = value }) (λ n. refl)
                (bucket_of t key),
          )) in
        record {
          run =
              unfold write_pair node_of subscribers_of in
              ground (
                arith,
                found,
                hash-eq-pos key ok_key,
                in_table t wf key ok_key b,
                notify_subscribers-notices old.subscriber key value
                    (record w { kvs_table = live (with_bucket t key b) }),
              );
          well_formed = with_bucket-IsWellFormed t wf key ok_key b (λ j. ground (
            arith,
            wf.placed j (slot (hash key)),
            count_key-update_node key j (λ n. record n { value = value }) (λ n. refl)
                (bucket_of t key),
            str_eq_iff key j,
          ));
          reads = λ j. view-changed t (with_bucket t key b) key (some new) changed j;
          subscribers = λ j.
              unfold subscribers_of in
              ground (
                arith,
                found,
                subscribers_of-changed t (with_bucket t key b) key (some new) changed j,
                str_eq_iff key j,
              );
        }

    -- `write_pair` on a well-formed table with memory left returns 0 and keeps the table well formed;
    -- afterwards the key reads as the value, every other key as before, the subscriber lists are the
    -- same, and exactly the subscribers of the key were sent the key and the value.
    pub write_pair-Writes : (value : Str) → (t' : HashTable) × Writes value t'
    write_pair-Writes value = elim (Option-cases (node_of t key)) [
      | inl absent ↦ (_, write_new value absent)
      | inr (old, found) ↦ (_, write_old value old found)
    ]

    delete_absent : node_of t key ≡ none → Deletes t
    delete_absent absent = record {
      run =
          unfold delete_pair node_of subscribers_of view in
          ground
            (arith, absent, hash-eq-pos key ok_key, append-nil w.sent, in_table t wf key ok_key []);
      well_formed = wf;
      reads = λ j. unfold view in ground (arith, absent, str_eq_iff key j);
      subscribers = λ j. unfold subscribers_of in ground (arith, absent, str_eq_iff key j);
    }

    delete_present :
        (old : KeyNode)
        → node_of t key ≡ some old
        → Deletes (with_bucket t key (unlink_node key (bucket_of t key)))
    delete_present old found =
        let b = unlink_node key (bucket_of t key) in
        let changed = node_of-with_bucket t wf key ok_key b none (λ j.
          ground (
            arith,
            wf.placed j (slot (hash key)),
            find_node-unlink_node key j (bucket_of t key),
          )) in
        record {
          run =
              unfold delete_pair node_of subscribers_of view in
              ground (
                arith,
                found,
                hash-eq-pos key ok_key,
                in_table t wf key ok_key b,
                notify_subscribers-notices old.subscriber key delete_text w,
              );
          well_formed = with_bucket-IsWellFormed t wf key ok_key b (λ j. ground (
            arith,
            wf.placed j (slot (hash key)),
            count_key-unlink_node key j (bucket_of t key),
          ));
          reads = λ j. view-changed t (with_bucket t key b) key none changed j;
          subscribers = λ j. subscribers_of-changed t (with_bucket t key b) key none changed j;
        }

    -- `delete_pair` on a well-formed table returns 0 if the key was there and 1 if it was not;
    -- afterwards the table is well formed, the key is missing and has no subscribers, every other key is
    -- as before, and exactly the former subscribers of the key were sent the key and `DELETE`.
    pub delete_pair-Deletes : (t' : HashTable) × Deletes t'
    delete_pair-Deletes = elim (Option-cases (node_of t key)) [
      | inl absent ↦ (_, delete_absent absent)
      | inr (old, found) ↦ (_, delete_present old found)
    ]
