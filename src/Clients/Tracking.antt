-- ===== src/Clients/Tracking.antt =====
-- server/operations.c: every key that a client's pipe subscribes is on the client's own list, through the
-- requests of clients and the commands of jobs.
pub mod Lists
pub mod Requests
pub mod Commands
pub mod Entries
pub mod Leave
pub mod Join
pub mod Series
pub mod Restart
use ist_key_value_store.Prelude.{
  get_or-set_at, set-get_or, set-cases, set-others, ℕ, Bool-cases, ◌+◌, ◌==◌, if◌then◌else◌, zero,
  suc, ◌≡◌, ◌≢◌, ◌⊎◌, ◌∙◌, refl, ap, sym, inl, inr, Option, none, some, List, [], ◌∷◌, Bool, true,
  false, arith, All, get_or, set,
}
use ist_key_value_store.CString.{Str}
use ist_key_value_store.Table.{HashTable, is_subscribed}
use ist_key_value_store.Table.Hash.{IsHashable}
use ist_key_value_store.Table.View.{view, subscribers_of, IsWellFormed}
use ist_key_value_store.Machine.{World, Client}
use ist_key_value_store.Locks.Holding.{IsReady}
use ist_key_value_store.Clients.Forget.{is_listed, AllOnce}

-- The table is well formed, no list holds a pipe twice, no bucket lock is held, and locks and memory do not
-- fail.
pub record IsSound (t : HashTable) (w : World) : Type 0 where
  pub ready : IsReady w t
  pub none_held : w.held ≡ []
  pub memory : w.allocs ≡ []
  pub well_formed : IsWellFormed t
  pub once : AllOnce t

-- The client's list covers its subscriptions, and its keys have buckets.
pub record IsTracked (c : Client) (t : HashTable) : Type 0 where
  pub hashable : All IsHashable c.subscriptions
  pub tracked :
      (j : Str)
      → is_subscribed c.fd_notif (subscribers_of t j) ≡ true
      → is_listed j c.subscriptions ≡ true

-- The client at `a`, which is not freed.
abbrev pub IsAt : ℕ → Client → World → Type 0
IsAt a c w = get_or w.sessions.heap a none ≡ some c

-- How often a client stands in the table of connected clients.
unfoldable pub count_entry : ℕ → List (Option ℕ) → ℕ
count_entry a [] = 0
count_entry a (none ∷ cs) = count_entry a cs
count_entry a (some b ∷ cs) = (if b == a then 1 else 0) + count_entry a cs

-- 1 for a client that is not freed.
abbrev pub one_if_some : Option Client → ℕ
one_if_some none = 0
one_if_some (some _) = 1

-- A pipe of a client that is not freed.
abbrev pub IsOwned : ℕ → World → Type 0
IsOwned fd w = (a : ℕ) × (c : Client) × IsAt a c w × (c.fd_notif ≡ fd)

-- All clients that are not freed are served: each stands in the table of connected clients once, and has a
-- pipe of its own; and only their pipes are subscribed.
pub record AreServed (t : HashTable) (w : World) : Type 0 where
  pub sound : IsSound t w
  pub writes : (a : ℕ) (c : Client) → IsAt a c w → w.sessions.write_error c.fd_resp ≡ false
  pub tracks : (a : ℕ) (c : Client) → IsAt a c w → IsTracked c t
  pub own_pipe :
      (a b : ℕ) (c d : Client) → IsAt a c w → IsAt b d w → a ≢ b → c.fd_notif ≢ d.fd_notif
  pub owned : (fd : ℕ) (j : Str) → is_subscribed fd (subscribers_of t j) ≡ true → IsOwned fd w
  pub registered :
      (a : ℕ)
      → count_entry a w.sessions.connected_clients ≡ one_if_some (get_or w.sessions.heap a none)

one_if_some-set :
    (heap : List (Option Client)) (a b : ℕ) (c d : Client)
    → get_or heap a none ≡ some c
    → one_if_some (get_or (set heap a (some d)) b none) ≡ one_if_some (get_or heap b none)
one_if_some-set [] a b c d at = refl
one_if_some-set (x ∷ xs) zero zero c d at = rw at refl
one_if_some-set (x ∷ xs) zero (suc b) c d at = refl
one_if_some-set (x ∷ xs) (suc a) zero c d at = refl
one_if_some-set (x ∷ xs) (suc a) (suc b) c d at = one_if_some-set xs a b c d at

same_or_not : (i j : ℕ) → (i ≡ j) ⊎ (i ≢ j)
same_or_not i j = elim (Bool-cases (i == j)) [
  | inl same ↦ inl (ground arith)
  | inr other ↦ inr (ground arith)
]

at_same : (w : World) (a b : ℕ) (c d : Client) → IsAt a c w → IsAt b d w → b ≡ a → d ≡ c
at_same w a b c d at it same = cc

-- The client at `a`, whose pipe is `fd`, has changed nothing that is not its own: the values, who else is
-- subscribed, and the other clients.
pub record Keeps (fd a : ℕ) (t : HashTable) (w : World) (t' : HashTable) (w' : World) : Type 0 where
  pub reads : (j : Str) → view t' j ≡ view t j
  pub others :
      (g : ℕ) (j : Str)
      → g ≢ fd
      → is_subscribed g (subscribers_of t' j) ≡ is_subscribed g (subscribers_of t j)
  pub clients : (b : ℕ) (d : Client) → b ≢ a → IsAt b d w → IsAt b d w'

pub Keeps-trans :
    (fd a : ℕ) (t t' t'' : HashTable) (w w' w'' : World)
    → Keeps fd a t w t' w'
    → Keeps fd a t' w' t'' w''
    → Keeps fd a t w t'' w''
Keeps-trans fd a t t' t'' w w' w'' k l = record {
  reads = λ j. l.reads j ∙ k.reads j;
  others = λ g j ne. l.others g j ne ∙ k.others g j ne;
  clients = λ b d ne at. l.clients b d ne (k.clients b d ne at);
}

-- After a request the client goes on as `c'`.
pub record Continues (a : ℕ) (c : Client) (t : HashTable) (w : World) (c' : Client) (t' : HashTable)
    (w' : World) : Type 0 where
  pub served : AreServed t' w'
  pub at : IsAt a c' w'
  pub same_pipe : c'.fd_notif ≡ c.fd_notif
  pub keeps : Keeps c.fd_notif a t w t' w'

-- The table changes to `t'` for the client at `a` only, which is then `c'`, with the same pipes.
pub client-Continues :
    (t t' : HashTable) (w w' : World) (a : ℕ) (c c' : Client)
    → AreServed t w
    → IsSound t' w'
    → IsAt a c w
    → w'.sessions.heap ≡ set w.sessions.heap a (some c')
    → w'.sessions.write_error ≡ w.sessions.write_error
    → w'.sessions.connected_clients ≡ w.sessions.connected_clients
    → c'.fd_resp ≡ c.fd_resp
    → c'.fd_notif ≡ c.fd_notif
    → IsTracked c' t'
    → ((j : Str) → view t' j ≡ view t j)
    → ((fd : ℕ) (j : Str)
        → fd ≢ c.fd_notif
        → is_subscribed fd (subscribers_of t' j) ≡ is_subscribed fd (subscribers_of t j))
    → Continues a c t w c' t' w'
client-Continues t t' w w' a c c' s sound at heap writes clients resp notif track reads others =
    let which : (b : ℕ) (d : Client) → IsAt b d w' → ((b ≡ a) × (d ≡ c')) ⊎ ((b ≢ a) × IsAt b d w) =
      λ b d is.
        set-cases w.sessions.heap a b c c' d at (ap (λ h. get_or h b none) (sym heap) ∙ is) in
    let at' : IsAt a c' w' =
      ap (λ h. get_or h a none) heap ∙ get_or-set_at w.sessions.heap a c c' at in
    record {
      served = record {
        sound = sound;
        writes = λ b d is. elim (which b d is) [
          | inl (same, it) ↦ rw (writes, it, resp) (s.writes a c at)
          | inr (other, it) ↦ rw writes (s.writes b d it)
        ];
        tracks = λ b d is. elim (which b d is) [
          | inl (same, it) ↦ rw it track
          | inr (other, it) ↦ record {
            hashable = (s.tracks b d it).hashable;
            tracked = λ j there.
                (s.tracks b d it).tracked j
                  (sym (others d.fd_notif j (s.own_pipe b a d c it at other)) ∙ there);
          }
        ];
        own_pipe = λ b b' d d' is is' ne. elim (which b d is) [
          | inl (same, it) ↦ elim (which b' d' is') [
            | inl (same', it') ↦ absurd (ne (same ∙ sym same'))
            | inr (other, it') ↦ rw (it, notif) (s.own_pipe a b' c d' at it' (λ e. other (sym e)))
          ]
          | inr (other, it) ↦ elim (which b' d' is') [
            | inl (same, it') ↦ rw (it', notif) (s.own_pipe b a d c it at other)
            | inr (other', it') ↦ s.own_pipe b b' d d' it it' ne
          ]
        ];
        owned = λ fd j there. elim (same_or_not fd c.fd_notif) [
          | inl own ↦ (a, c', at', notif ∙ sym own)
          | inr other ↦
              let (b, d, it, pipe) = s.owned fd j (sym (others fd j other) ∙ there) in
              elim (set-others w.sessions.heap a b c' d it) [
                | inl same ↦ absurd (
                    other
                      (sym pipe ∙ ap (λ (o : Client). o.fd_notif) (at_same w a b c d at it same)))
                | inr it' ↦ (b, d, ap (λ h. get_or h b none) heap ∙ it', pipe)
              ]
        ];
        registered =
            λ b. rw (heap, clients, one_if_some-set w.sessions.heap a b c c' at) (s.registered b);
      };
      at = at';
      same_pipe = notif;
      keeps = record {
        reads = reads;
        others = others;
        clients = λ b d ne it. elim (set-others w.sessions.heap a b c' d it) [
          | inl here ↦ absurd (ne here)
          | inr it' ↦ ap (λ h. get_or h b none) heap ∙ it'
        ];
      };
    }

-- The table changes to `t'`, where a key has no subscriber that it had not before.
pub table-AreServed :
    (t t' : HashTable) (w w' : World)
    → AreServed t w
    → IsSound t' w'
    → w'.sessions ≡ w.sessions
    → ((fd : ℕ) (j : Str)
        → is_subscribed fd (subscribers_of t' j) ≡ true
        → is_subscribed fd (subscribers_of t j) ≡ true)
    → AreServed t' w'
table-AreServed t t' w w' s sound same others = record {
  sound = sound;
  writes = rw same s.writes;
  tracks = rw same λ a c at. record {
    hashable = (s.tracks a c at).hashable;
    tracked = λ j there. (s.tracks a c at).tracked j (others c.fd_notif j there);
  };
  own_pipe = rw same s.own_pipe;
  owned = rw same λ fd j there. s.owned fd j (others fd j there);
  registered = rw same s.registered;
}
