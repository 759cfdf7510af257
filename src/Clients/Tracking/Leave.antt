-- ===== src/Clients/Tracking/Leave.antt =====
-- server/operations.c: `kvs_disconnect` leaves all other clients served.
use ist_key_value_store.Prelude.{
  set-others, get_or-set_at, ℕ, zero, suc, ◌<◌, ◌≡◌, ◌≢◌, ◌∙◌, refl, ap, sym, inl, inr, Option,
  none, some, List, [], ◌∷◌, ◌++◌, true, false, arith, if◌then◌else◌, ◌==◌, ◌||◌, get_or, set,
}
use ist_key_value_store.CString.{Str}
use ist_key_value_store.Table.{HashTable, Subscribers, is_subscribed}
use ist_key_value_store.Table.View.{subscribers_of}
use ist_key_value_store.Machine.{World, Client, live}
use ist_key_value_store.Kvs.Notices.{notices}
use ist_key_value_store.Kvs.SubscriberList.{
  count_fd, count_fd-is_subscribed, is_subscribed-count_fd,
}
use ist_key_value_store.Clients.{get_client, close, write_to_resp_pipe, op_code_disconnect}
use ist_key_value_store.Clients.Session.{kvs_disconnect, remove_client}
use ist_key_value_store.Clients.Forget.{sent_to, forget_subscriptions_lem}
use ist_key_value_store.Clients.Tracking.{IsSound, IsAt, AreServed, Keeps, count_entry, one_if_some}
use ist_key_value_store.Clients.Tracking.Entries.{
  clear_entry, count_entry-clear_entry, without_client, AreOthers, remove_entry-clear_entry,
}

-- The heap once the client at `a` is changed, then freed.
abbrev freed : List (Option Client) → ℕ → Client → List (Option Client)
freed heap a c = set (set heap a (some c)) a none

freed-cases :
    (heap : List (Option Client)) (a b : ℕ) (c d : Client)
    → get_or (freed heap a c) b none ≡ some d
    → (b ≢ a) × (get_or heap b none ≡ some d)
freed-cases [] a b c d h = cc
freed-cases (x ∷ xs) zero zero c d h = cc
freed-cases (x ∷ xs) zero (suc b) c d h = (omega arith, h)
freed-cases (x ∷ xs) (suc a) zero c d h = (omega arith, h)
freed-cases (x ∷ xs) (suc a) (suc b) c d h =
    let (other, it) = freed-cases xs a b c d h in (omega (arith, other), it)

pub freed-others :
    (heap : List (Option Client)) (a b : ℕ) (c d : Client)
    → b ≢ a
    → get_or heap b none ≡ some d
    → get_or (freed heap a c) b none ≡ some d
freed-others [] a b c d ne h = h
freed-others (x ∷ xs) zero zero c d ne h = absurd (ne refl)
freed-others (x ∷ xs) zero (suc b) c d ne h = h
freed-others (x ∷ xs) (suc a) zero c d ne h = h
freed-others (x ∷ xs) (suc a) (suc b) c d ne h = freed-others xs a b c d (λ e. ne (ap suc e)) h

one_if_some-freed :
    (heap : List (Option Client)) (a b : ℕ) (c : Client)
    → one_if_some (get_or (freed heap a c) b none)
      ≡ (if b == a then 0 else one_if_some (get_or heap b none))
one_if_some-freed [] a b c = ground arith
one_if_some-freed (x ∷ xs) zero zero c = refl
one_if_some-freed (x ∷ xs) zero (suc b) c = ground arith
one_if_some-freed (x ∷ xs) (suc a) zero c = ground arith
one_if_some-freed (x ∷ xs) (suc a) (suc b) c = ground (arith, one_if_some-freed xs a b c)

pub some_client : (o : Option Client) → 0 < one_if_some o → (d : Client) × (o ≡ some d)
some_client none more = absurd (omega (arith, more))
some_client (some d) more = (d, refl)

pub set-freed : (heap : List (Option Client)) (a : ℕ) → get_or (set heap a none) a none ≡ none
set-freed [] a = refl
set-freed (x ∷ xs) zero = refl
set-freed (x ∷ xs) (suc a) = set-freed xs a

pub append_three :
    (xs : List ℕ) (i j k : ℕ) → ((xs ++ i ∷ []) ++ j ∷ []) ++ k ∷ [] ≡ xs ++ i ∷ j ∷ k ∷ []
append_three [] i j k = refl
append_three (x ∷ xs) i j k = ap (λ ys. x ∷ ys) (append_three xs i j k)

pub still_subscribed :
    (g fd : ℕ) (before after : Subscribers)
    → count_fd g after ≡ (if g == fd then 0 else count_fd g before)
    → is_subscribed g after ≡ true
    → (g ≢ fd) × (is_subscribed g before ≡ true)
still_subscribed g fd before after counts there = (
  (λ e. ground (arith, e, count_fd-is_subscribed g after)),
  ground (arith, count_fd-is_subscribed g after, is_subscribed-count_fd g before),
)

pub same_subscribed :
    (g fd : ℕ) (before after : Subscribers)
    → g ≢ fd
    → count_fd g after ≡ (if g == fd then 0 else count_fd g before)
    → is_subscribed g after ≡ is_subscribed g before
same_subscribed g fd before after ne counts = ground (
  arith,
  ne,
  count_fd-is_subscribed g after,
  is_subscribed-count_fd g after,
  count_fd-is_subscribed g before,
  is_subscribed-count_fd g before,
)

module _ (t : HashTable) (w : World) (a : ℕ) (c : Client) (s : AreServed t w)
    (at : IsAt a c w) where
  once_entry : count_entry a w.sessions.connected_clients ≡ 1
  once_entry = s.registered a ∙ rw at refl

  -- The other clients stay served.
  pub leave-AreServed :
      (t' : HashTable) (w' : World) (c' : Client)
      → IsSound t' w'
      → w'.sessions.heap ≡ freed w.sessions.heap a c'
      → w'.sessions.write_error ≡ w.sessions.write_error
      → w'.sessions.connected_clients ≡ clear_entry a w.sessions.connected_clients
      → ((g : ℕ) (j : Str)
          → is_subscribed g (subscribers_of t' j) ≡ true
          → (g ≢ c.fd_notif) × (is_subscribed g (subscribers_of t j) ≡ true))
      → AreServed t' w'
  leave-AreServed t' w' c' sound heap writes clients others =
      let old : (b : ℕ) (d : Client) → IsAt b d w' → (b ≢ a) × IsAt b d w = λ b d is.
        freed-cases w.sessions.heap a b c' d (ap (λ h. get_or h b none) (sym heap) ∙ is) in
      record {
        sound = sound;
        writes = λ b d is. rw writes (s.writes b d (old b d is).1);
        tracks = λ b d is. record {
          hashable = (s.tracks b d (old b d is).1).hashable;
          tracked =
              λ j there. (s.tracks b d (old b d is).1).tracked j (others d.fd_notif j there).1;
        };
        own_pipe = λ b b' d d' is is' ne. s.own_pipe b b' d d' (old b d is).1 (old b' d' is').1 ne;
        owned = λ fd j there.
            let (ne, before) = others fd j there in
            let (b, d, it, pipe) = s.owned fd j before in
            let other : b ≢ a = λ e. ne (ground (arith, at, it, pipe, e)) in
            (
              b,
              d,
              ap (λ h. get_or h b none) heap ∙ freed-others w.sessions.heap a b c' d other it,
              pipe,
            );
        registered = λ b.
            rw (heap, clients)
              (ground (
                arith,
                s.registered b,
                count_entry-clear_entry a b w.sessions.connected_clients,
                once_entry,
                one_if_some-freed w.sessions.heap a b c',
              ));
      }

  entries_of_others :
      (w₂ : World) (c₀ : Client)
      → w₂.sessions.heap ≡ set w.sessions.heap a (some c₀)
      → c₀.fd_notif ≡ c.fd_notif
      → (at₂ : IsAt a c₀ w₂) → AreOthers w₂ a c₀ at₂ w.sessions.connected_clients
  entries_of_others w₂ c₀ heap same at₂ b ne more =
      let (d, it) =
        some_client (get_or w.sessions.heap b none) (omega (arith, more, s.registered b)) in
      elim (set-others w.sessions.heap a b c₀ d it) [
        | inl here ↦ absurd (ne here)
        | inr it₂ ↦
            (d, ap (λ h. get_or h b none) heap ∙ it₂, λ e. s.own_pipe b a d c it at ne (e ∙ same))
      ]

  -- What the client leaves behind.
  pub record Leaves (t' : HashTable) (w' : World) : Type 0 where
    pub run : kvs_disconnect a w ≡ some (tt, w')
    pub served : AreServed t' w'
    pub freed_client : get_or w'.sessions.heap a none ≡ none
    pub responses :
        w'.sessions.responses
        ≡ w.sessions.responses
          ++ (c.fd_resp, op_code_disconnect)
            ∷ (
              c.fd_resp,
              if w.sessions.close_error c.fd_req || w.sessions.close_error c.fd_notif
                  then b'1'
                  else b'0',
            )
            ∷ []
    pub closed : w'.sessions.closed ≡ w.sessions.closed ++ c.fd_req ∷ c.fd_notif ∷ c.fd_resp ∷ []
    pub keeps : Keeps c.fd_notif a t w t' w'
    pub silent :
        (key value : Str) → sent_to c.fd_notif (notices (subscribers_of t' key) key value) ≡ false

  -- `kvs_disconnect` of a client that is not freed, while all clients are served, returns: the client is
  -- told 0, or 1 if closing its pipe for requests or for notifications failed; its three pipes are closed, once each, in the
  -- order of requests, notifications and responses; it is freed and no longer in the table of clients; its
  -- pipe is off every list, so that no later change is sent to it; and all values, all other subscriptions
  -- and all other clients stay as they are, and served.
  pub kvs_disconnect-Leaves : (t' : HashTable) × (w' : World) × Leaves t' w'
  kvs_disconnect-Leaves =
      let r = s.sound in
      let tr = s.tracks a c at in
      let (t', f) =
        forget_subscriptions_lem w t a c r.ready at r.well_formed r.once tr.hashable tr.tracked in
      let c₀ : Client = record c { subscriptions = [] } in
      let heap₁ = set w.sessions.heap a (some c₀) in
      let at₁ : get_or heap₁ a none ≡ some c₀ = get_or-set_at w.sessions.heap a c c₀ at in
      let status : ℕ =
        if w.sessions.close_error c.fd_req || w.sessions.close_error c.fd_notif
        then b'1'
        else b'0' in
      let w₂ : World = record w {
        kvs_table = live t';
        sessions = record w.sessions {
          heap = heap₁;
          closed = w.sessions.closed ++ c.fd_req ∷ c.fd_notif ∷ c.fd_resp ∷ [];
          responses =
              w.sessions.responses ++ (c.fd_resp, op_code_disconnect) ∷ (c.fd_resp, status) ∷ [];
        };
      } in
      let removed =
        remove_entry-clear_entry w₂ a c₀ at₁ [] w.sessions.connected_clients refl once_entry
          (entries_of_others w₂ c₀ refl refl at₁) in
      let w' = without_client w₂ a (clear_entry a w.sessions.connected_clients) in
      (
        t',
        w',
        record {
          run =
              unfold kvs_disconnect get_client close write_to_resp_pipe remove_client in
              ground (
                arith,
                f.run,
                at₁,
                s.writes a c at,
                append_three w.sessions.closed c.fd_req c.fd_notif c.fd_resp,
                removed,
              );
          served =
              leave-AreServed t' w' c₀
                (record {
                  ready = record { at = refl; locks = r.ready.locks; unlocks = r.ready.unlocks };
                  none_held = r.none_held;
                  memory = r.memory;
                  well_formed = f.well_formed;
                  once = λ j g. ground (arith, f.others j g, r.once j g);
                })
                refl refl refl
                (λ g j there.
                  still_subscribed g c.fd_notif (subscribers_of t j) (subscribers_of t' j)
                    (f.others j g) there);
          freed_client = set-freed heap₁ a;
          responses = refl;
          closed = refl;
          keeps = record {
            reads = f.reads;
            others = λ g j ne.
                same_subscribed g c.fd_notif (subscribers_of t j) (subscribers_of t' j) ne
                  (f.others j g);
            clients = λ b d ne it. freed-others w.sessions.heap a b c₀ d ne it;
          };
          silent = f.silent;
        },
      )
