-- ===== src/Clients/Tracking/Commands.antt =====
-- server/operations.c: `kvs_write` and `kvs_delete` keep all clients served.
use ist_key_value_store.Prelude.{
  ℕ, ◌≡◌, ◌⊎◌, refl, inl, inr, some, List, [], ◌∷◌, true, arith, All, Bool-cases,
}
use ist_key_value_store.CString.{Str, str_eq}
use ist_key_value_store.Table.{HashTable, Subscribers, is_subscribed}
use ist_key_value_store.Table.Hash.{IsHashable}
use ist_key_value_store.Table.View.{subscribers_of}
use ist_key_value_store.Machine.{World}
use ist_key_value_store.Kvs.SubscriberList.{IsOnce, count_fd}
use ist_key_value_store.Operations.{Pair, compare_keys, kvs_write, kvs_delete}
use ist_key_value_store.Operations.Sort.{qsort}
use ist_key_value_store.Operations.Text.{IsShort}
use ist_key_value_store.Operations.Write.{AreHashable, kvs_write_lem}
use ist_key_value_store.Operations.Delete.{kvs_delete_lem}
use ist_key_value_store.Operations.Missing.{remaining_subscribers, unsubscribed}
use ist_key_value_store.Clients.Tracking.{AreServed, table-AreServed}

remaining_subscribers-cases :
    (keys : List Str) (f : Str → Subscribers) (j : Str)
    → (remaining_subscribers keys f j ≡ []) ⊎ (remaining_subscribers keys f j ≡ f j)
remaining_subscribers-cases [] f j = inr refl
remaining_subscribers-cases (k ∷ keys) f j =
    elim (remaining_subscribers-cases keys (unsubscribed k f) j) [
      | inl gone ↦ inl gone
      | inr same ↦ elim (Bool-cases (str_eq k j)) [
        | inl here ↦ inl (ground (arith, same, here))
        | inr other ↦ inr (ground (arith, same, other))
      ]
    ]

kept-IsOnce : {ss rs : Subscribers} → (rs ≡ []) ⊎ (rs ≡ ss) → IsOnce ss → IsOnce rs
unfolding count_fd
kept-IsOnce (inl gone) once = rw gone (λ fd. omega arith)
kept-IsOnce (inr same) once = rw same once

kept-is_subscribed :
    (fd : ℕ) {ss rs : Subscribers}
    → (rs ≡ []) ⊎ (rs ≡ ss)
    → is_subscribed fd rs ≡ true
    → is_subscribed fd ss ≡ true
unfolding is_subscribed
kept-is_subscribed fd (inl gone) is = ground (arith, gone)
kept-is_subscribed fd (inr same) is = ground (arith, same)

-- `kvs_write` keeps all clients served.
pub write-AreServed :
    (t : HashTable) (w : World) (pairs : List Pair)
    → AreServed t w
    → AreHashable pairs
    → (t' : HashTable) × (w' : World) × (kvs_write pairs w ≡ some (0, w'))
      × (w'.sessions ≡ w.sessions)
      × AreServed t' w'
write-AreServed t w pairs s ok =
    let r = s.sound in
    let (t', h) = kvs_write_lem w t pairs r.ready r.none_held r.memory r.well_formed ok in
    (
      t',
      _,
      h.run,
      refl,
      table-AreServed t t' w _ s
          (record {
            ready = record { at = refl; locks = r.ready.locks; unlocks = r.ready.unlocks };
            none_held = r.none_held;
            memory = r.memory;
            well_formed = h.well_formed;
            once = λ j. rw (h.subscribers j) (r.once j);
          })
          refl (λ fd j. rw (h.subscribers j) (λ is. is)),
    )

-- `kvs_delete` keeps all clients served.
pub delete-AreServed :
    (t : HashTable) (w : World) (keys : List Str)
    → AreServed t w
    → All IsHashable keys
    → All IsShort keys
    → (t' : HashTable) × (w' : World) × (kvs_delete keys w ≡ some (0, w'))
      × (w'.sessions ≡ w.sessions)
      × AreServed t' w'
delete-AreServed t w keys s ok short =
    let r = s.sound in
    let (t', h) = kvs_delete_lem w t keys r.ready r.none_held r.memory r.well_formed ok short in
    let left = remaining_subscribers-cases (qsort compare_keys keys) (subscribers_of t) in
    (
      t',
      _,
      h.run,
      refl,
      table-AreServed t t' w _ s
          (record {
            ready = record { at = refl; locks = r.ready.locks; unlocks = r.ready.unlocks };
            none_held = r.none_held;
            memory = r.memory;
            well_formed = h.well_formed;
            once = λ j. rw h.subscribers (kept-IsOnce (left j) (r.once j));
          })
          refl (λ fd j. rw h.subscribers (kept-is_subscribed fd (left j))),
    )
