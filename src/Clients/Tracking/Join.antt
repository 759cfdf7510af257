-- ===== src/Clients/Tracking/Join.antt =====
-- server/operations.c: `kvs_connect` of a client that the table has room for.
use ist_key_value_store.Prelude.{
  ℕ, zero, suc, ◌+◌, ◌≡◌, ◌≢◌, ◌⊎◌, ◌∙◌, refl, ap, sym, inl, inr, Option, none, some, List, [], ◌∷◌,
  ◌++◌, true, false, arith, if◌then◌else◌, ◌==◌, get_or, length,
}
use ist_key_value_store.CString.{Str}
use ist_key_value_store.Table.{HashTable}
use ist_key_value_store.Machine.{World, Client, malloc}
use ist_key_value_store.Clients.{write_to_resp_pipe, op_code_connect}
use ist_key_value_store.Clients.Session.{kvs_connect, allocate_client, add_client, is_negative}
use ist_key_value_store.Clients.Tracking.{Keeps, IsAt, AreServed, one_if_some}
use ist_key_value_store.Clients.Tracking.Entries.{has_room, take_entry-count_entry}

appended-cases :
    (heap : List (Option Client)) (b : ℕ) (c d : Client)
    → get_or (heap ++ some c ∷ []) b none ≡ some d
    → ((b ≡ length heap) × (d ≡ c)) ⊎ (get_or heap b none ≡ some d)
appended-cases [] zero c d h = inl (refl, cc)
appended-cases [] (suc b) c d h = inr h
appended-cases (x ∷ xs) zero c d h = inr h
appended-cases (x ∷ xs) (suc b) c d h = elim (appended-cases xs b c d h) [
  | inl (same, it) ↦ inl (ap suc same, it)
  | inr it ↦ inr it
]

appended-others :
    (heap : List (Option Client)) (b : ℕ) (c d : Client)
    → get_or heap b none ≡ some d
    → get_or (heap ++ some c ∷ []) b none ≡ some d
appended-others [] b c d h = cc
appended-others (x ∷ xs) zero c d h = h
appended-others (x ∷ xs) (suc b) c d h = appended-others xs b c d h

appended-last :
    (heap : List (Option Client)) (c : Client)
    → get_or (heap ++ some c ∷ []) (length heap) none ≡ some c
appended-last [] c = refl
appended-last (x ∷ xs) c = appended-last xs c

one_if_some-appended :
    (heap : List (Option Client)) (b : ℕ) (c : Client)
    → one_if_some (get_or (heap ++ some c ∷ []) b none)
      ≡ one_if_some (get_or heap b none) + (if length heap == b then 1 else 0)
one_if_some-appended [] zero c = refl
one_if_some-appended [] (suc b) c = ground arith
one_if_some-appended (x ∷ xs) zero c = ground arith
one_if_some-appended (x ∷ xs) (suc b) c = ground (arith, one_if_some-appended xs b c)

module _ (w : World) (req resp notif : Str) where
  -- The pipes that are opened.
  abbrev pub opened : Client
  opened = record {
    fd_req = w.sessions.opens req;
    fd_resp = w.sessions.opens resp;
    fd_notif = w.sessions.opens notif;
    subscriptions = [];
  }

  -- They can be opened, and the pipe for notifications is none of another client.
  pub record AreOpened : Type 0 where
    pub fd_req : is_negative opened.fd_req ≡ false
    pub fd_resp : is_negative opened.fd_resp ≡ false
    pub fd_notif : is_negative opened.fd_notif ≡ false
    pub writes : w.sessions.write_error opened.fd_resp ≡ false
    pub is_new : (b : ℕ) (d : Client) → IsAt b d w → d.fd_notif ≢ opened.fd_notif

module _ (t : HashTable) (w : World) (s : AreServed t w) (req resp notif : Str) where
  -- What a client that connects finds.
  pub record Joins (a : ℕ) (w' : World) : Type 0 where
    pub run : kvs_connect req resp notif w ≡ some ((0, some a), w')
    pub served : AreServed t w'
    pub at : IsAt a (opened w req resp notif) w'
    pub keeps : Keeps (opened w req resp notif).fd_notif a t w t w'
    pub responses :
        w'.sessions.responses
        ≡ w.sessions.responses
          ++ ((opened w req resp notif).fd_resp, op_code_connect)
            ∷ ((opened w req resp notif).fd_resp, b'0')
            ∷ []

  -- `kvs_connect`, while all clients are served, of a client whose pipes can be opened and written, with a
  -- pipe for notifications that no other client has, and with a free entry in the table of clients, returns
  -- 0 and tells the client 0; the client is then in the table with these pipes and without subscriptions,
  -- all clients are served, and no value and no other client has changed.
  pub kvs_connect-Joins :
      AreOpened w req resp notif
      → has_room w.sessions.connected_clients ≡ true
      → (a : ℕ) × (w' : World) × Joins a w'
  kvs_connect-Joins o room =
      let r = s.sound in
      let a = length w.sessions.heap in
      let (clients, take, counts) = take_entry-count_entry a w.sessions.connected_clients room in
      let w' : World = record w {
        sessions = record w.sessions {
          heap = w.sessions.heap ++ some (opened w req resp notif) ∷ [];
          connected_clients = clients;
          responses =
              w.sessions.responses
              ++ ((opened w req resp notif).fd_resp, op_code_connect)
                ∷ ((opened w req resp notif).fd_resp, b'0')
                ∷ [];
        };
      } in
      let which : (b : ℕ) (d : Client)
          → IsAt b d w'
          → ((b ≡ a) × (d ≡ (opened w req resp notif))) ⊎ IsAt b d w =
        λ b d is. appended-cases w.sessions.heap b (opened w req resp notif) d is in
      (
        a,
        w',
        record {
          run =
              unfold kvs_connect malloc allocate_client add_client write_to_resp_pipe in
              ground (arith, o.fd_req, o.fd_resp, o.fd_notif, o.writes, r.memory, take);
          served = record {
            sound = record {
              ready = record { at = r.ready.at; locks = r.ready.locks; unlocks = r.ready.unlocks };
              none_held = r.none_held;
              memory = r.memory;
              well_formed = r.well_formed;
              once = r.once;
            };
            writes = λ b d is. elim (which b d is) [
              | inl (same, it) ↦ rw it o.writes
              | inr it ↦ s.writes b d it
            ];
            tracks = λ b d is. elim (which b d is) [
              | inl (same, it) ↦ rw it record {
                hashable = tt;
                tracked = λ j there.
                    let (e, f, live, pipe) = s.owned (opened w req resp notif).fd_notif j there in
                    absurd (o.is_new e f live pipe);
              }
              | inr it ↦ s.tracks b d it
            ];
            own_pipe = λ b b' d d' is is' ne. elim (which b d is) [
              | inl (same, it) ↦ elim (which b' d' is') [
                | inl (same', it') ↦ absurd (ne (same ∙ sym same'))
                | inr it' ↦ rw it (λ e. o.is_new b' d' it' (sym e))
              ]
              | inr it ↦ elim (which b' d' is') [
                | inl (same', it') ↦ rw it' (o.is_new b d it)
                | inr it' ↦ s.own_pipe b b' d d' it it' ne
              ]
            ];
            owned = λ fd j there.
                let (b, d, it, pipe) = s.owned fd j there in
                (b, d, appended-others w.sessions.heap b (opened w req resp notif) d it, pipe);
            registered = λ b.
                counts b
                ∙ ap (λ n. n + (if a == b then 1 else 0)) (s.registered b)
                ∙ sym (one_if_some-appended w.sessions.heap b (opened w req resp notif));
          };
          keeps = record {
            reads = λ j. refl;
            others = λ g j ne. refl;
            clients = λ b d ne it. appended-others w.sessions.heap b (opened w req resp notif) d it;
          };
          at = appended-last w.sessions.heap (opened w req resp notif);
          responses = refl;
        },
      )
