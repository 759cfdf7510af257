-- ===== src/Examples/ConnectionRuns.antt =====
-- Runs of the host thread and the client threads.
use ist_key_value_store.Prelude.{◌≡◌, refl, [], ◌∷◌, List, some, false, true}
use ist_key_value_store.Connections.{ClientInfo, Ring, initial, host_waits, Reach, start, step}
use ist_key_value_store.Connections.Queue.{IsQueue, Reach-IsQueue}
use ist_key_value_store.Connections.Signals.{interrupted_wait_overwrites}
use ist_key_value_store.Examples.Fixtures.{ant, bee, one}

abbrev info : ClientInfo
info = record { resp_fifo = ant; req_fifo = bee; notif_fifo = one }

abbrev other : ClientInfo
other = record { resp_fifo = bee; req_fifo = one; notif_fifo = ant }

abbrev reading : Ring
reading = record initial { write_sem = 1; host_reads = true }

reading-Reach : Reach false reading
reading-Reach = step start (host_waits 1 refl refl refl)

Reach-IsQueue_example : (queue : List ClientInfo) × IsQueue reading queue
Reach-IsQueue_example = Reach-IsQueue reading reading-Reach

interrupted_wait_overwrites_example :
    (s : Ring) × Reach true s
    × (s.signals ≡ 1)
    × (s.put ≡ info ∷ other ∷ info ∷ [])
    × (s.taken ≡ [])
    × (s.clients_buffer ≡ some info ∷ some other ∷ [])
interrupted_wait_overwrites_example = interrupted_wait_overwrites info other info
