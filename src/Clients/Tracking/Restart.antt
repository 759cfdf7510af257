-- ===== src/Clients/Tracking/Restart.antt =====
-- server/operations.c: `clean_all_clients`, with which the host thread restarts the server for clients.
use ist_key_value_store.Prelude.{
  get_or-set_at, ℕ, zero, suc, ◌+◌, ◌<◌, ◌≡◌, ◌∙◌, refl, ap, sym, Option, none, some, List, [], ◌∷◌,
  ◌++◌, false, arith, get_or, set, replicate, Bool-cases, inl, inr,
}
use ist_key_value_store.CString.{Str}
use ist_key_value_store.Table.{HashTable, Subscribers, is_subscribed}
use ist_key_value_store.Table.View.{view, subscribers_of}
use ist_key_value_store.Machine.{World, Client, live}
use ist_key_value_store.Clients.{get_client, put_client, close}
use ist_key_value_store.Clients.Session.{clean_entries, clean_all_clients}
use ist_key_value_store.Clients.Forget.{forget_subscriptions_lem}
use ist_key_value_store.Clients.Tracking.{AreServed, count_entry, one_if_some}
use ist_key_value_store.Clients.Tracking.Entries.{clear_entry}
use ist_key_value_store.Clients.Tracking.Leave.{leave-AreServed, still_subscribed, some_client}

-- The table of clients whose first `i` entries are free.
abbrev cleaned : ℕ → List (Option ℕ) → List (Option ℕ)
cleaned i cs = replicate i none ++ cs

cleaned-next : (i : ℕ) (cs : List (Option ℕ)) → cleaned (suc i) cs ≡ cleaned i (none ∷ cs)
cleaned-next zero cs = refl
cleaned-next (suc i) cs = ap (λ ys. none ∷ ys) (cleaned-next i cs)

cleaned-suc : (i : ℕ) (cs : List (Option ℕ)) → cleaned (i + 1) cs ≡ cleaned i (none ∷ cs)
cleaned-suc i cs =
    let one_more : i + 1 ≡ suc i = omega arith in
    ap (λ n. cleaned n cs) one_more ∙ cleaned-next i cs

set-cleaned :
    (i : ℕ) (cs : List (Option ℕ)) (o : Option ℕ)
    → set (cleaned i (o ∷ cs)) i none ≡ cleaned i (none ∷ cs)
set-cleaned zero cs o = refl
set-cleaned (suc i) cs o = ap (λ ys. none ∷ ys) (set-cleaned i cs o)

clear_entry-cleaned :
    (i a : ℕ) (cs : List (Option ℕ))
    → clear_entry a (cleaned i (some a ∷ cs)) ≡ cleaned i (none ∷ cs)
unfolding clear_entry
clear_entry-cleaned zero a cs = ground arith
clear_entry-cleaned (suc i) a cs = ap (λ ys. none ∷ ys) (clear_entry-cleaned i a cs)

count_entry-cleaned :
    (i a : ℕ) (cs : List (Option ℕ)) → count_entry a (cleaned i cs) ≡ count_entry a cs
unfolding count_entry
count_entry-cleaned zero a cs = refl
count_entry-cleaned (suc i) a cs = count_entry-cleaned i a cs

-- What the loop from the entry `i` on leaves.
record Cleans (i : ℕ) (cs : List (Option ℕ)) (t : HashTable) (w : World) (t' : HashTable)
    (w' : World) : Type 0 where
  pub run : clean_entries i cs w ≡ some (tt, w')
  pub served : AreServed t' w'
  pub empty : (a : ℕ) → count_entry a w'.sessions.connected_clients ≡ 0
  pub reads : (j : Str) → view t' j ≡ view t j

clean_entries-Cleans :
    (i : ℕ) (cs : List (Option ℕ)) (t : HashTable) (w : World)
    → AreServed t w
    → w.sessions.connected_clients ≡ cleaned i cs
    → (t' : HashTable) × (w' : World) × Cleans i cs t w t' w'
unfolding clean_entries count_entry
clean_entries-Cleans i [] t w s at = (
  t,
  w,
  record {
    run = refl;
    served = s;
    empty = λ a. ap (count_entry a) at ∙ count_entry-cleaned i a [];
    reads = λ j. refl;
  },
)
clean_entries-Cleans i (none ∷ cs) t w s at =
    let (t', w', h) = clean_entries-Cleans (i + 1) cs t w s (at ∙ sym (cleaned-suc i cs)) in
    (t', w', record { run = h.run; served = h.served; empty = h.empty; reads = h.reads })
clean_entries-Cleans i (some a ∷ cs) t w s at =
    let counted : 0 < one_if_some (get_or w.sessions.heap a none) =
      ground
        (arith, s.registered a, ap (count_entry a) at, count_entry-cleaned i a (some a ∷ cs)) in
    let (c, is) = some_client (get_or w.sessions.heap a none) counted in
    let r = s.sound in
    let tr = s.tracks a c is in
    let (t₁, f) =
      forget_subscriptions_lem w t a c r.ready is r.well_formed r.once tr.hashable tr.tracked in
    let c₀ : Client = record c { subscriptions = [] } in
    let at₀ = get_or-set_at w.sessions.heap a c c₀ is in
    let w₁ : World = record w {
      kvs_table = live t₁;
      sessions = record w.sessions {
        heap = set (set w.sessions.heap a (some c₀)) a none;
        connected_clients = cleaned i (none ∷ cs);
        closed = ((w.sessions.closed ++ c.fd_req ∷ []) ++ c.fd_notif ∷ []) ++ c.fd_resp ∷ [];
      };
    } in
    let s₁ =
      leave-AreServed t w a c s is t₁ w₁ c₀
        (record {
          ready = record { at = refl; locks = r.ready.locks; unlocks = r.ready.unlocks };
          none_held = r.none_held;
          memory = r.memory;
          well_formed = f.well_formed;
          once = λ j g. ground (arith, f.others j g, r.once j g);
        })
        refl refl (sym (ap (clear_entry a) at ∙ clear_entry-cleaned i a cs))
        (λ g j there.
          still_subscribed g c.fd_notif (subscribers_of t j) (subscribers_of t₁ j) (f.others j g)
            there) in
    let (t', w', h) = clean_entries-Cleans (i + 1) cs t₁ w₁ s₁ (sym (cleaned-suc i cs)) in
    (
      t',
      w',
      record {
        run =
            unfold get_client put_client close in
            ground (arith, f.run, at₀, at, set-cleaned i cs (some a), h.run);
        served = h.served;
        empty = h.empty;
        reads = λ j. h.reads j ∙ f.reads j;
      },
    )

no_client : (o : Option Client) → one_if_some o ≡ 0 → o ≡ none
no_client none h = refl
no_client (some c) h = absurd (omega (arith, h))

no_subscriber : (ss : Subscribers) → ((fd : ℕ) → is_subscribed fd ss ≡ false) → ss ≡ []
unfolding is_subscribed
no_subscriber [] h = refl
no_subscriber (s ∷ ss) h = ground (arith, h s)

-- What the restart leaves.
pub record Restarts (t : HashTable) (w : World) (t' : HashTable) (w' : World) : Type 0 where
  pub run : clean_all_clients w ≡ some (0, w')
  pub served : AreServed t' w'
  pub entries : (a : ℕ) → count_entry a w'.sessions.connected_clients ≡ 0
  pub freed_clients : (a : ℕ) → get_or w'.sessions.heap a none ≡ none
  pub unsubscribed : (j : Str) → subscribers_of t' j ≡ []
  pub reads : (j : Str) → view t' j ≡ view t j

-- `clean_all_clients`, while all clients are served, returns 0: every client is freed and the table of
-- clients is empty, no key has a subscriber, and every key has the value that it had.
pub clean_all_clients-Restarts :
    (t : HashTable) (w : World)
    → AreServed t w
    → (t' : HashTable) × (w' : World) × Restarts t w t' w'
clean_all_clients-Restarts t w s =
    let (t', w', h) = clean_entries-Cleans 0 w.sessions.connected_clients t w s refl in
    let freed : (a : ℕ) → get_or w'.sessions.heap a none ≡ none =
      λ a. no_client (get_or w'.sessions.heap a none) (sym (h.served.registered a) ∙ h.empty a) in
    (
      t',
      w',
      record {
        run = unfold clean_all_clients in ground (arith, h.run);
        served = h.served;
        entries = h.empty;
        freed_clients = freed;
        unsubscribed = λ j. no_subscriber (subscribers_of t' j) (λ fd.
            elim (Bool-cases (is_subscribed fd (subscribers_of t' j))) [
              | inl there ↦
                  let (a, c, at, pipe) = h.served.owned fd j there in ground (arith, freed a, at)
              | inr absent ↦ absent
            ]);
        reads = h.reads;
      },
    )
