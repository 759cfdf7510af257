-- ===== src/Connections.antt =====
-- proj_p2/src/server/main.c: the buffer between the host thread, which takes the connections of clients, and
-- the client threads, with its two semaphores. `clientsBufferMutex` makes the work on the buffer one step.
pub mod Queue
pub mod Signals
use ist_key_value_store.Prelude.{
  ℕ, zero, suc, ◌+◌, ◌≡◌, ◌⊎◌, List, [], ◌∷◌, ◌++◌, Option, none, some, Bool, true, false, ◌==◌,
  get_or, set, if◌then◌else◌,
}
use ist_key_value_store.CString.{Str}

-- The paths of a client's pipes.
pub record ClientInfo : Type 0 where
  pub resp_fifo : Str
  pub req_fifo : Str
  pub notif_fifo : Str

abbrev pub max_session_count : ℕ
max_session_count = 2

-- `in++; if (in == MAX_SESSION_COUNT) in = 0;`
unfoldable pub next : ℕ → ℕ
next i = if i + 1 == max_session_count then 0 else i + 1

pub record Ring : Type 0 where
  -- an entry that a client thread has freed, or that was never filled, is `none`
  pub clients_buffer : List (Option ClientInfo)
  pub in_index : ℕ
  pub out_index : ℕ
  pub read_sem : ℕ
  pub write_sem : ℕ
  pub restart_clients : Bool
  -- whether the host thread has passed `sem_wait(&writeSem)` and reads a connect message
  pub host_reads : Bool
  -- how many client threads have passed `sem_wait(&readSem)` and wait for the mutex
  pub claimed : ℕ
  -- the clients that were put into the buffer, and those that were taken out, in order
  pub put : List ClientInfo
  pub taken : List (Option ClientInfo)
  -- how many signals have come
  pub signals : ℕ

abbrev pub initial : Ring
initial = record {
  clients_buffer = none ∷ none ∷ [];
  in_index = 0;
  out_index = 0;
  read_sem = 0;
  write_sem = max_session_count;
  restart_clients = false;
  host_reads = false;
  claimed = 0;
  put = [];
  taken = [];
  signals = 0;
}

-- The steps of the threads. If `often` is false, a signal only arrives when the last one is dealt with, and
-- none arrives in `sem_wait(&writeSem)` while the host thread is blocked there.
pub data Step (often : Bool) (s : Ring) : Ring → Type 0 where
  host_waits :
      (n : ℕ)
      → s.host_reads ≡ false
      → s.write_sem ≡ suc n
      → s.restart_clients ≡ false
      → Step often s (record s { write_sem = n; host_reads = true })
  host_restarts :
      (n : ℕ)
      → s.host_reads ≡ false
      → s.write_sem ≡ suc n
      → s.restart_clients ≡ true
      → Step often s (record s { write_sem = n; restart_clients = false })
  -- no valid message, or no memory
  host_gives_up :
      s.host_reads ≡ true
      → Step often s (record s { write_sem = s.write_sem + 1; host_reads = false })
  host_puts :
      (client : ClientInfo)
      → s.host_reads ≡ true
      → Step often s (record s {
        clients_buffer = set s.clients_buffer s.in_index (some client);
        in_index = next s.in_index;
        read_sem = s.read_sem + 1;
        host_reads = false;
        put = s.put ++ client ∷ [];
      })
  client_waits :
      (n : ℕ)
      → s.read_sem ≡ suc n
      → Step often s (record s { read_sem = n; claimed = s.claimed + 1 })
  client_takes :
      (n : ℕ)
      → s.claimed ≡ suc n
      → Step often s (record s {
        clients_buffer = set s.clients_buffer s.out_index none;
        out_index = next s.out_index;
        write_sem = s.write_sem + 1;
        claimed = n;
        taken = s.taken ++ get_or s.clients_buffer s.out_index none ∷ [];
      })
  -- `handle_SIGUSR1`
  signal :
      (s.restart_clients ≡ false) ⊎ (often ≡ true)
      → Step often s (record s {
        write_sem = s.write_sem + 1;
        restart_clients = true;
        signals = s.signals + 1;
      })
  -- the host thread, which is blocked in `sem_wait`, runs the handler: `sem_wait` fails with EINTR and takes
  -- no unit, the loop goes on as if it had, and finds `restartClients` set
  signal_interrupts :
      often ≡ true
      → s.host_reads ≡ false
      → s.write_sem ≡ 0
      → Step often s (record s { write_sem = 1; restart_clients = false; signals = s.signals + 1 })

pub data Reach (often : Bool) : Ring → Type 0 where
  start : Reach often initial
  step : {s t : Ring} → Reach often s → Step often s t → Reach often t
