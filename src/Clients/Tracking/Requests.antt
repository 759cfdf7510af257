-- ===== src/Clients/Tracking/Requests.antt =====
-- server/operations.c: `kvs_subscribe` and `kvs_unsubscribe` keep all clients served.
use ist_key_value_store.Prelude.{
  set-get_or, get_or-set_at, ℕ, ◌≡◌, refl, sym, inl, inr, some, List, [], ◌∷◌, ◌++◌, false, pos,
  arith, if◌then◌else◌, set, Bool-cases,
}
use ist_key_value_store.CString.{Str, str_eq}
use ist_key_value_store.CString.Order.{str_eq_iff}
use ist_key_value_store.Table.{HashTable, is_subscribed}
use ist_key_value_store.Table.Hash.{IsHashable}
use ist_key_value_store.Table.View.{view, subscribers_of}
use ist_key_value_store.Machine.{World, Client, live}
use ist_key_value_store.Clients.{
  get_client, put_client, write_to_resp_pipe, is_invalid, remove_key, client_remove_subscription,
  kvs_subscribe, kvs_unsubscribe, op_code_unsubscribe,
}
use ist_key_value_store.Clients.Subscribe.{list_for, kvs_subscribe-Subscribes}
use ist_key_value_store.Clients.Unsubscribe.{kvs_aux_unsubscribe-Unsubscribes}
use ist_key_value_store.Clients.Forget.{is_listed}
use ist_key_value_store.Clients.Tracking.{IsTracked, IsAt, AreServed, Continues, client-Continues}
use ist_key_value_store.Clients.Tracking.Lists.{
  list_for-IsOnce, is_subscribed-list_for, list_for-there, is_listed-remove_key, All-remove_key,
  remove_fd-IsOnce, remove_fd-gone, is_subscribed-remove_fd,
}

module _ (t : HashTable) (w : World) (a : ℕ) (c : Client) (key : Str) (s : AreServed t w)
    (at : IsAt a c w) (valid : is_invalid key ≡ false) (ok : IsHashable key) where
  -- The lists of the table and of the client after a subscription.
  subscribe-IsTracked :
      (t' : HashTable) (keys : List Str)
      → ((j : Str)
          → subscribers_of t' j ≡ (
              if str_eq key j
              then list_for (view t key) c.fd_notif (subscribers_of t key)
              else subscribers_of t j))
      → (keys ≡ (
          if is_subscribed c.fd_notif (subscribers_of t key)
          then c.subscriptions
          else key ∷ c.subscriptions))
      → IsTracked (record c { subscriptions = keys }) t'
  subscribe-IsTracked t' keys subs kept =
      let tr = s.tracks a c at in
      let ss = subscribers_of t key in
      elim (Bool-cases (is_subscribed c.fd_notif ss)) [
        | inl there ↦
            rw (kept, there)
              record {
                hashable = tr.hashable;
                tracked = λ j is. ground (
                  arith,
                  subs j,
                  list_for-there (view t key) c.fd_notif ss there,
                  tr.tracked j,
                  tr.tracked key,
                  str_eq_iff key j,
                );
              }
        | inr new ↦
            rw (kept, new)
              record {
                hashable = (ok, tr.hashable);
                tracked = λ j is. unfold is_listed in ground (arith, subs j, tr.tracked j);
              }
      ]

  -- A subscription.
  pub subscribe-Continues :
      (t' : HashTable) × (w' : World) × (d : Client) × (kvs_subscribe key a w ≡ some (pos 0, w'))
      × Continues a c t w d t' w'
  subscribe-Continues =
      let r = s.sound in
      let ss = subscribers_of t key in
      let keys = if is_subscribed c.fd_notif ss then c.subscriptions else key ∷ c.subscriptions in
      let d : Client = record c { subscriptions = keys } in
      let (t', h) =
        kvs_subscribe-Subscribes w t a c key r.ready at r.memory (s.writes a c at) r.well_formed
          valid ok in
      let heap : (if is_subscribed c.fd_notif ss
            then w.sessions.heap
            else set w.sessions.heap a (some (record c { subscriptions = key ∷ c.subscriptions })))
          ≡ set w.sessions.heap a (some d) =
        elim (Bool-cases (is_subscribed c.fd_notif ss)) [
          | inl there ↦ rw there (sym (set-get_or w.sessions.heap a c at))
          | inr new ↦ rw new refl
        ] in
      (
        t',
        _,
        d,
        h.run,
        client-Continues t t' w _ a c d s
            (record {
              ready = record { at = refl; locks = r.ready.locks; unlocks = r.ready.unlocks };
              none_held = r.none_held;
              memory = r.memory;
              well_formed = h.well_formed;
              once = λ j g. ground (
                arith,
                h.subscribers j,
                list_for-IsOnce (view t key) c.fd_notif ss (r.once key) g,
                r.once j g,
              );
            })
            at heap refl refl refl refl (subscribe-IsTracked t' keys h.subscribers refl) h.reads
            (λ fd j ne. ground (
              arith,
              h.subscribers j,
              is_subscribed-list_for (view t key) fd c.fd_notif ss ne,
              str_eq_iff key j,
            )),
      )

  -- A cancelled subscription.
  pub unsubscribe-Continues :
      (t' : HashTable) × (w' : World) × (d : Client) × (kvs_unsubscribe key a w ≡ some (0, w'))
      × Continues a c t w d t' w'
  unsubscribe-Continues =
      let r = s.sound in
      let ss = subscribers_of t key in
      let tr = s.tracks a c at in
      let d : Client = record c { subscriptions = remove_key key c.subscriptions } in
      let heap₁ = set w.sessions.heap a (some d) in
      let w₁ : World = record w { sessions = record w.sessions { heap = heap₁ } } in
      let at₁ = get_or-set_at w.sessions.heap a c d at in
      let (t', h) =
        kvs_aux_unsubscribe-Unsubscribes w₁ t a d key
          (record { at = r.ready.at; locks = r.ready.locks; unlocks = r.ready.unlocks }) at₁
          r.well_formed ok in
      let w' : World = record w₁ {
        kvs_table = live t';
        sessions = record w₁.sessions {
          responses =
              w.sessions.responses
              ++ (c.fd_resp, op_code_unsubscribe)
                ∷ (c.fd_resp, if is_subscribed c.fd_notif ss then b'0' else b'1')
                ∷ [];
        };
      } in
      (
        t',
        w',
        d,
        (unfold kvs_unsubscribe get_client client_remove_subscription put_client
              write_to_resp_pipe in
            ground (arith, valid, at, s.writes a c at, h.run)),
        client-Continues t t' w w' a c d s
            (record {
              ready = record { at = refl; locks = r.ready.locks; unlocks = r.ready.unlocks };
              none_held = r.none_held;
              memory = r.memory;
              well_formed = h.well_formed;
              once = λ j g. ground (
                arith,
                h.subscribers j,
                remove_fd-IsOnce c.fd_notif ss (r.once key) g,
                r.once j g,
              );
            })
            at refl refl refl refl refl
            (record {
              hashable = All-remove_key IsHashable key c.subscriptions tr.hashable;
              tracked = λ j is. ground (
                arith,
                h.subscribers j,
                tr.tracked j,
                is_listed-remove_key key j c.subscriptions,
                remove_fd-gone c.fd_notif ss (r.once key),
              );
            })
            h.reads
            (λ fd j ne. ground (
              arith,
              h.subscribers j,
              is_subscribed-remove_fd fd c.fd_notif ss ne,
              str_eq_iff key j,
            )),
      )
