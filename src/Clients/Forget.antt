-- ===== src/Clients/Forget.antt =====
-- server/operations.c: a client that leaves, by `kvs_disconnect` or `clean_all_clients`, is on no list of
-- subscribers any more.
use ist_key_value_store.Prelude.{
  ℕ, ◌≡◌, ◌∙◌, refl, none, some, List, [], ◌∷◌, Bool, true, false, arith, All, if◌then◌else◌, ◌==◌,
  ◌&&◌, ◌||◌, get_or, set,
}
use ist_key_value_store.CString.{Str, str_eq}
use ist_key_value_store.CString.Order.{str_eq_iff}
use ist_key_value_store.Table.{HashTable, Subscribers, is_subscribed}
use ist_key_value_store.Table.Hash.{IsHashable}
use ist_key_value_store.Table.View.{view, subscribers_of, IsWellFormed}
use ist_key_value_store.Machine.{World, Client, Sent, live}
use ist_key_value_store.Kvs.Notices.{notices}
use ist_key_value_store.Kvs.SubscriberList.{
  IsOnce, count_fd, count_fd-remove_fd_once, count_fd-is_subscribed, is_subscribed-count_fd,
}
use ist_key_value_store.Locks.Holding.{IsReady}
use ist_key_value_store.Clients.{get_client, put_client}
use ist_key_value_store.Clients.Session.{unsubscribe_keys, forget_subscriptions}
use ist_key_value_store.Clients.Unsubscribe.{kvs_aux_unsubscribe-Unsubscribes}

-- Whether a key is on the client's list.
unfoldable pub is_listed : Str → List Str → Bool
is_listed j [] = false
is_listed j (k ∷ ks) = str_eq k j || is_listed j ks

-- No list of the table holds a pipe twice.
abbrev pub AllOnce : HashTable → Type 0
AllOnce t = (j : Str) → IsOnce (subscribers_of t j)

-- What the loop over `keys` leaves.
record Unlisted (w : World) (t : HashTable) (a : ℕ) (c : Client) (keys : List Str) (t' : HashTable)
    : Type 0 where
  pub run : unsubscribe_keys keys a w ≡ some (tt, record w { kvs_table = live t' })
  pub well_formed : IsWellFormed t'
  pub reads : (j : Str) → view t' j ≡ view t j
  pub counts :
      (j : Str) (g : ℕ)
      → count_fd g (subscribers_of t' j)
        ≡ (if g == c.fd_notif && is_listed j keys then 0 else count_fd g (subscribers_of t j))

unsubscribe_keys-Unlisted :
    (keys : List Str) (w : World) (t : HashTable) (a : ℕ) (c : Client)
    → IsReady w t
    → get_or w.sessions.heap a none ≡ some c
    → IsWellFormed t
    → AllOnce t
    → All IsHashable keys
    → (t' : HashTable) × Unlisted w t a c keys t'
unfolding unsubscribe_keys is_listed
unsubscribe_keys-Unlisted [] w t a c r at wf once h = (
  t,
  record {
    run = ground (arith, r.at);
    well_formed = wf;
    reads = λ j. refl;
    counts = λ j g. ground arith;
  },
)
unsubscribe_keys-Unlisted (key ∷ keys) w t a c r at wf once h =
    let (t₁, first) = kvs_aux_unsubscribe-Unsubscribes w t a c key r at wf h.0 in
    let w₁ : World = record w { kvs_table = live t₁ } in
    let count₁ : (j : Str) (g : ℕ)
        → count_fd g (subscribers_of t₁ j)
          ≡ (if g == c.fd_notif && str_eq key j then 0 else count_fd g (subscribers_of t j)) =
      λ j g. ground (
        arith,
        first.subscribers j,
        str_eq_iff key j,
        count_fd-remove_fd_once c.fd_notif g (subscribers_of t key) (once key),
      ) in
    let (t₂, rest) =
      unsubscribe_keys-Unlisted keys w₁ t₁ a c
        (record { at = refl; locks = r.locks; unlocks = r.unlocks }) at first.well_formed
        (λ j g. ground (arith, count₁ j g, once j g)) h.1 in
    (
      t₂,
      record {
        run = ground (arith, first.run, rest.run);
        well_formed = rest.well_formed;
        reads = λ j. rest.reads j ∙ first.reads j;
        counts = λ j g. ground (arith, rest.counts j g, count₁ j g);
      },
    )

-- The notices that go to a pipe.
abbrev pub sent_to : ℕ → List Sent → Bool
sent_to fd [] = false
sent_to fd (n ∷ ns) = (n.fd == fd) || sent_to fd ns

sent_to-notices :
    (fd : ℕ) (ss : Subscribers) (key value : Str)
    → is_subscribed fd ss ≡ false
    → sent_to fd (notices ss key value) ≡ false
unfolding is_subscribed
sent_to-notices fd [] key value h = refl
sent_to-notices fd (s ∷ ss) key value h = ground (arith, sent_to-notices fd ss key value)

-- What a client that leaves does to the table.
pub record Forgotten (w : World) (t : HashTable) (a : ℕ) (c : Client) (t' : HashTable)
    : Type 0 where
  pub run :
      forget_subscriptions a w
      ≡ some (
        tt,
        record w {
          kvs_table = live t';
          sessions = record w.sessions {
            heap = set w.sessions.heap a (some (record c { subscriptions = [] }));
          };
        },
      )
  pub well_formed : IsWellFormed t'
  pub reads : (j : Str) → view t' j ≡ view t j
  pub others :
      (j : Str) (g : ℕ)
      → count_fd g (subscribers_of t' j)
        ≡ (if g == c.fd_notif then 0 else count_fd g (subscribers_of t j))
  pub silent :
      (key value : Str) → sent_to c.fd_notif (notices (subscribers_of t' key) key value) ≡ false

-- If every key whose list holds the pipe of a client is on the client's own list, and all these keys
-- have buckets, then, on a well-formed table where no list holds a pipe twice and with locks that do not
-- fail, the loop over the client's keys with which `kvs_disconnect` and `clean_all_clients` begin
-- completes; it takes the pipe off every list, so no later change of any key is sent to it, leaves all
-- other subscriptions and all values as they are, and empties the client's list.
pub forget_subscriptions_lem :
    (w : World) (t : HashTable) (a : ℕ) (c : Client)
    → IsReady w t
    → get_or w.sessions.heap a none ≡ some c
    → IsWellFormed t
    → AllOnce t
    → All IsHashable c.subscriptions
    → ((j : Str)
        → is_subscribed c.fd_notif (subscribers_of t j) ≡ true
        → is_listed j c.subscriptions ≡ true)
    → (t' : HashTable) × Forgotten w t a c t'
forget_subscriptions_lem w t a c r at wf once h tracked =
    let (t', u) = unsubscribe_keys-Unlisted c.subscriptions w t a c r at wf once h in
    let others : (j : Str) (g : ℕ)
        → count_fd g (subscribers_of t' j)
          ≡ (if g == c.fd_notif then 0 else count_fd g (subscribers_of t j)) =
      λ j g.
        ground (
          arith,
          u.counts j g,
          tracked j,
          is_subscribed-count_fd c.fd_notif (subscribers_of t j),
        ) in
    (
      t',
      record {
        run = unfold forget_subscriptions get_client put_client in ground (arith, at, u.run);
        well_formed = u.well_formed;
        reads = u.reads;
        others = others;
        silent = λ key value. sent_to-notices c.fd_notif (subscribers_of t' key) key value (
            count_fd-is_subscribed c.fd_notif (subscribers_of t' key)
              (ground (arith, others key c.fd_notif)));
      },
    )
