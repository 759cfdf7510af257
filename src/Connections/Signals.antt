-- ===== src/Connections/Signals.antt =====
-- server/main.c: signals that leave `writeSem` too high: two before the host thread has dealt with the first,
-- or one that interrupts it in `sem_wait`.
use ist_key_value_store.Prelude.{ℕ, suc, ◌+◌, ◌++◌, set, ◌≡◌, refl, [], ◌∷◌, some, true, false}
use ist_key_value_store.Connections.{
  ClientInfo, Ring, next, host_waits, host_puts, signal_interrupts, Reach, start, step,
}

-- One round of the host thread that puts a client.
put_client :
    {s : Ring} (c : ClientInfo) (n : ℕ)
    → Reach true s
    → s.host_reads ≡ false
    → s.write_sem ≡ suc n
    → s.restart_clients ≡ false
    → Reach true (record s {
      clients_buffer = set s.clients_buffer s.in_index (some c);
      in_index = next s.in_index;
      read_sem = s.read_sem + 1;
      write_sem = n;
      host_reads = false;
      put = s.put ++ c ∷ [];
    })
put_client {s} c n r idle free calm = step (step r (host_waits n idle free calm)) (host_puts c refl)

-- One signal is enough if it comes while the buffer is full and the host thread is blocked in
-- `sem_wait(&writeSem)`, which then fails with EINTR: the host thread can put a third client before any is
-- taken, over the first, whose connection is lost.
pub interrupted_wait_overwrites :
    (a b c : ClientInfo)
    → (s : Ring) × Reach true s
      × (s.signals ≡ 1)
      × (s.put ≡ a ∷ b ∷ c ∷ [])
      × (s.taken ≡ [])
      × (s.clients_buffer ≡ some c ∷ some b ∷ [])
unfolding next
interrupted_wait_overwrites a b c =
    let full = put_client b 0 (put_client a 1 start refl refl refl) refl refl refl in
    let interrupted = step full (signal_interrupts refl refl refl) in
    (_, put_client c 0 interrupted refl refl refl, refl, refl, refl, refl)
