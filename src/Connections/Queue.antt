-- ===== src/Connections/Queue.antt =====
-- server/main.c: the buffer of connections is a queue that loses and overwrites nothing.
use ist_key_value_store.Prelude.{
  ℕ, zero, suc, ◌+◌, ◌≤◌, ◌<◌, ◌≡◌, ◌≢◌, inl, inr, refl, sym, ap, ◌∙◌, List, [], ◌∷◌, ◌++◌,
  append_assoc, map, Option, none, some, Bool, true, false, arith, length, length-append,
  length-set, get_or, set, get_or-set_self, get_or-set_ne,
}
use ist_key_value_store.Connections.{
  ClientInfo, Ring, initial, next, Step, host_waits, host_restarts, host_gives_up, host_puts,
  client_waits, client_takes, signal, signal_interrupts, Reach, start, step,
}

abbrev pub one_if : Bool → ℕ
one_if true = 1
one_if false = 0

-- The buffer holds the clients of `queue` from index `i` on.
abbrev pub Holds : List (Option ClientInfo) → ℕ → List ClientInfo → Type 0
Holds b i [] = Unit
Holds b i (c ∷ cs) = (get_or b i none ≡ some c) × Holds b (next i) cs

-- The index behind `n` entries from `i` on.
abbrev pub behind : ℕ → ℕ → ℕ
behind i zero = i
behind i (suc n) = behind (next i) n

-- What holds in every state: `queue` is what has been put and not taken.
pub record IsQueue (s : Ring) (queue : List ClientInfo) : Type 0 where
  pub width : length s.clients_buffer ≡ 2
  pub small : s.out_index < 2
  pub holds : Holds s.clients_buffer s.out_index queue
  pub behind_last : s.in_index ≡ behind s.out_index (length queue)
  pub counted : length queue ≡ s.read_sem + s.claimed
  pub fits : length queue + one_if s.host_reads ≤ 2
  pub balanced : s.write_sem + length queue + one_if s.host_reads ≡ 2 + one_if s.restart_clients
  pub in_order : s.taken ++ map some queue ≡ map some s.put

next-ne : (i : ℕ) → i < 2 → (next i < 2) × (next i ≢ i) × (next (next i) ≡ i)
unfolding next
next-ne i h = ground arith

map_append :
    (xs : List ClientInfo) (c : ClientInfo) → map some (xs ++ c ∷ []) ≡ map some xs ++ some c ∷ []
map_append [] c = refl
map_append (x ∷ xs) c = ap (λ l. some x ∷ l) (map_append xs c)

module _ (b : List (Option ClientInfo)) (i : ℕ) (small : i < 2) (width : length b ≡ 2) where
  -- One more client behind one at most.
  Holds-put :
      (queue : List ClientInfo) (c : ClientInfo)
      → length queue < 2
      → Holds b i queue
      → Holds (set b (behind i (length queue)) (some c)) i (queue ++ c ∷ [])
  Holds-put [] c l h = (get_or-set_self b i (some c) none (omega arith), tt)
  Holds-put (x ∷ []) c l h =
      let n = next-ne i small in
      (
        get_or-set_ne b (next i) i (some c) none n.1 ∙ h.0,
        (get_or-set_self b (next i) (some c) none (omega (arith, n.0)), tt),
      )
  Holds-put (x ∷ y ∷ rest) c l h = absurd (omega arith)

  Holds-take :
      (c : ClientInfo) (queue : List ClientInfo)
      → length queue < 2
      → Holds b (next i) queue
      → Holds (set b i none) (next i) queue
  Holds-take c [] l h = tt
  Holds-take c (x ∷ []) l h =
      let n = next-ne i small in (get_or-set_ne b i (next i) none none (λ e. n.1 (sym e)) ∙ h.0, tt)
  Holds-take c (x ∷ y ∷ rest) l h = absurd (omega arith)

behind-append :
    (i : ℕ) (queue : List ClientInfo) (c : ClientInfo)
    → next (behind i (length queue)) ≡ behind i (length (queue ++ c ∷ []))
behind-append i [] c = refl
behind-append i (x ∷ queue) c = behind-append (next i) queue c

put-IsQueue :
    (s : Ring) (queue : List ClientInfo) (c : ClientInfo)
    → IsQueue s queue
    → s.host_reads ≡ true
    → IsQueue
        (record s {
          clients_buffer = set s.clients_buffer s.in_index (some c);
          in_index = next s.in_index;
          read_sem = s.read_sem + 1;
          host_reads = false;
          put = s.put ++ c ∷ [];
        })
        (queue ++ c ∷ [])
put-IsQueue s queue c q reads = record {
  width = rw length-set q.width;
  small = q.small;
  holds = rw q.behind_last (
      Holds-put s.clients_buffer s.out_index q.small q.width queue c (ground (arith, q.fits))
        q.holds);
  behind_last = rw q.behind_last (behind-append s.out_index queue c);
  counted = omega (arith, q.counted, length-append queue (c ∷ []));
  fits = ground (arith, q.fits, length-append queue (c ∷ []));
  balanced = ground (arith, q.balanced, length-append queue (c ∷ []));
  in_order =
      rw (map_append queue c, map_append s.put c, ← q.in_order)
        (sym (append_assoc s.taken (map some queue) (some c ∷ [])));
}

take-IsQueue :
    (s : Ring) (c : ClientInfo) (queue : List ClientInfo) (n : ℕ)
    → IsQueue s (c ∷ queue)
    → s.claimed ≡ suc n
    → IsQueue
        (record s {
          clients_buffer = set s.clients_buffer s.out_index none;
          out_index = next s.out_index;
          write_sem = s.write_sem + 1;
          claimed = n;
          taken = s.taken ++ get_or s.clients_buffer s.out_index none ∷ [];
        })
        queue
take-IsQueue s c queue n q e = record {
  width = rw length-set q.width;
  small = (next-ne s.out_index q.small).0;
  holds =
      Holds-take s.clients_buffer s.out_index q.small q.width c queue (ground (arith, q.fits))
        q.holds.1;
  behind_last = q.behind_last;
  counted = omega (arith, q.counted, e);
  fits = ground (arith, q.fits);
  balanced = omega (arith, q.balanced);
  in_order = rw q.holds.0 (append_assoc s.taken (some c ∷ []) (map some queue) ∙ q.in_order);
}

-- A step that leaves the buffer and its indices.
counters-IsQueue :
    (s : Ring) (queue : List ClientInfo) (w r c signals : ℕ) (reads restart : Bool)
    → IsQueue s queue
    → length queue ≡ r + c
    → length queue + one_if reads ≤ 2
    → w + length queue + one_if reads ≡ 2 + one_if restart
    → IsQueue
        (record s {
          write_sem = w;
          read_sem = r;
          claimed = c;
          host_reads = reads;
          restart_clients = restart;
          signals = signals;
        })
        queue
counters-IsQueue s queue w r c signals reads restart q counted fits balanced = record {
  width = q.width;
  small = q.small;
  holds = q.holds;
  behind_last = q.behind_last;
  counted = counted;
  fits = fits;
  balanced = balanced;
  in_order = q.in_order;
}

Step-IsQueue :
    {s t : Ring}
    → Step false s t
    → (queue : List ClientInfo) → IsQueue s queue
    → (queue' : List ClientInfo) × IsQueue t queue'
Step-IsQueue {s} (host_waits n idle free calm) queue q = (
  queue,
  counters-IsQueue s queue n s.read_sem s.claimed s.signals true s.restart_clients q q.counted
      (ground (arith, q.balanced)) (ground (arith, q.balanced)),
)
Step-IsQueue {s} (host_restarts n idle free restart) queue q = (
  queue,
  counters-IsQueue s queue n s.read_sem s.claimed s.signals s.host_reads false q q.counted q.fits
      (ground (arith, q.balanced)),
)
Step-IsQueue {s} (host_gives_up reads) queue q = (
  queue,
  counters-IsQueue s queue (s.write_sem + 1) s.read_sem s.claimed s.signals false s.restart_clients
      q q.counted (ground (arith, q.fits)) (ground (arith, q.balanced)),
)
Step-IsQueue (host_puts c reads) queue q = (queue ++ c ∷ [], put-IsQueue _ queue c q reads)
Step-IsQueue {s} (client_waits n e) queue q = (
  queue,
  counters-IsQueue s queue s.write_sem n (s.claimed + 1) s.signals s.host_reads s.restart_clients q
      (omega (arith, q.counted)) q.fits q.balanced,
)
Step-IsQueue (client_takes n e) [] q = absurd (omega (arith, q.counted))
Step-IsQueue (client_takes n e) (c ∷ queue) q = (queue, take-IsQueue _ c queue n q e)
Step-IsQueue {s} (signal (inl calm)) queue q = (
  queue,
  counters-IsQueue s queue (s.write_sem + 1) s.read_sem s.claimed (s.signals + 1) s.host_reads true
      q q.counted q.fits (ground (arith, q.balanced)),
)
Step-IsQueue (signal (inr often)) queue q = absurd cc
Step-IsQueue (signal_interrupts often idle empty) queue q = absurd cc

initial-IsQueue : IsQueue initial []
initial-IsQueue = record {
  width = refl;
  small = omega arith;
  holds = tt;
  behind_last = refl;
  counted = refl;
  fits = omega arith;
  balanced = refl;
  in_order = refl;
}

-- As long as no signal arrives before the last one is dealt with, and none interrupts the host thread while
-- it is blocked in `sem_wait(&writeSem)`, in every state that the host thread and
-- the client threads can reach, however they interleave, the buffer holds a queue of the clients that were
-- put and not yet taken, two at most with the one that the host thread reads: no entry is overwritten, no
-- client thread takes an empty entry, and the clients are taken in the order in which they came.
pub Reach-IsQueue : (u : Ring) → Reach false u → (queue : List ClientInfo) × IsQueue u queue
Reach-IsQueue u start = ([], initial-IsQueue)
Reach-IsQueue u (step {s} r st) = let (queue, q) = Reach-IsQueue s r in Step-IsQueue st queue q
