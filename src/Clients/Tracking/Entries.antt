-- ===== src/Clients/Tracking/Entries.antt =====
-- server/operations.c: `add_client` and `remove_client` on the table of connected clients.
use ist_key_value_store.Prelude.{
  ℕ, ◌+◌, ◌≤◌, ◌<◌, ◌≡◌, ◌≢◌, ◌∙◌, refl, ap, sym, inl, inr, Option, none, some, List, [], ◌∷◌, ◌++◌,
  Bool, true, false, arith, if◌then◌else◌, ◌==◌, set, length, length-append, append_assoc,
  Bool-cases,
}
use ist_key_value_store.Machine.{World, Client}
use ist_key_value_store.Clients.{get_client, put_client}
use ist_key_value_store.Clients.Session.{take_entry, remove_entry}
use ist_key_value_store.Clients.Tracking.{count_entry, IsAt}

-- The table without the client at `a`.
unfoldable pub clear_entry : ℕ → List (Option ℕ) → List (Option ℕ)
clear_entry a [] = []
clear_entry a (none ∷ cs) = none ∷ clear_entry a cs
clear_entry a (some b ∷ cs) = if b == a then none ∷ cs else some b ∷ clear_entry a cs

pub count_entry-clear_entry :
    (a b : ℕ) (cs : List (Option ℕ))
    → count_entry a cs ≤ 1
    → count_entry b (clear_entry a cs) ≡ (if b == a then 0 else count_entry b cs)
unfolding count_entry clear_entry
count_entry-clear_entry a b [] h = ground arith
count_entry-clear_entry a b (none ∷ cs) h = count_entry-clear_entry a b cs h
count_entry-clear_entry a b (some e ∷ cs) h = ground (arith, count_entry-clear_entry a b cs)

-- An entry is free.
abbrev pub has_room : List (Option ℕ) → Bool
has_room [] = false
has_room (none ∷ cs) = true
has_room (some b ∷ cs) = has_room cs

pub take_entry-count_entry :
    (a : ℕ) (cs : List (Option ℕ))
    → has_room cs ≡ true
    → (cs' : List (Option ℕ)) × (take_entry a cs ≡ some cs')
      × ((b : ℕ) → count_entry b cs' ≡ count_entry b cs + (if a == b then 1 else 0))
unfolding count_entry take_entry
take_entry-count_entry a [] h = cc
take_entry-count_entry a (none ∷ cs) h = (some a ∷ cs, refl, λ b. omega arith)
take_entry-count_entry a (some e ∷ cs) h =
    let (cs', run, counts) = take_entry-count_entry a cs h in
    (some e ∷ cs', rw run refl, λ b. rw (counts b) (omega arith))

set-append :
    (pre cs : List (Option ℕ)) (o : Option ℕ)
    → set (pre ++ o ∷ cs) (length pre) none ≡ pre ++ none ∷ cs
set-append [] cs o = refl
set-append (x ∷ pre) cs o = ap (λ ys. x ∷ ys) (set-append pre cs o)

-- The world once the client at `a` is freed, and the table of clients is `cs`.
abbrev pub without_client : World → ℕ → List (Option ℕ) → World
without_client w a cs = record w {
  sessions = record w.sessions { heap = set w.sessions.heap a none; connected_clients = cs };
}

module _ (w : World) (a : ℕ) (c : Client) (at : IsAt a c w) where
  -- Entries of other clients are of clients that are not freed, with other pipes.
  abbrev pub AreOthers : List (Option ℕ) → Type 0
  AreOthers cs =
      (b : ℕ) → b ≢ a → 0 < count_entry b cs → (d : Client) × IsAt b d w × (d.fd_notif ≢ c.fd_notif)

  pub remove_entry-clear_entry :
      (pre cs : List (Option ℕ))
      → w.sessions.connected_clients ≡ pre ++ cs
      → count_entry a cs ≡ 1
      → AreOthers cs
      → remove_entry c.fd_req c.fd_resp c.fd_notif (length pre) cs w
        ≡ some (0, without_client w a (pre ++ clear_entry a cs))
  unfolding remove_entry count_entry clear_entry
  remove_entry-clear_entry pre [] all once others = ground arith
  remove_entry-clear_entry pre (none ∷ cs) all once others =
      let h =
        remove_entry-clear_entry (pre ++ none ∷ []) cs (all ∙ sym (append_assoc pre (none ∷ []) cs))
          once others in
      ground
        (arith, h, length-append pre (none ∷ []), append_assoc pre (none ∷ []) (clear_entry a cs))
  remove_entry-clear_entry pre (some b ∷ cs) all once others = elim (Bool-cases (b == a)) [
    | inl here ↦
        unfold get_client put_client in ground (arith, here, at, all, set-append pre cs (some b))
    | inr other ↦
        let h =
          remove_entry-clear_entry (pre ++ some b ∷ []) cs
            (all ∙ sym (append_assoc pre (some b ∷ []) cs)) (ground (arith, once, other))
            (λ e ne more. others e ne (omega (arith, more))) in
        let (d, is, ne) = others b (ground (arith, other)) (ground arith) in
        unfold get_client in
        ground (
          arith,
          other,
          h,
          is,
          ne,
          length-append pre (some b ∷ []),
          append_assoc pre (some b ∷ []) (clear_entry a cs),
        )
  ]
