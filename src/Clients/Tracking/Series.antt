-- ===== src/Clients/Tracking/Series.antt =====
-- server/operations.c: connects, requests, disconnects, writes, deletes and restarts in any order, one after
-- the other.
use ist_key_value_store.Prelude.{ℕ, ◌≡◌, Option, some, List, true, false, arith, All}
use mathlib.Core.Path.{subst}
use ist_key_value_store.CString.{Str}
use ist_key_value_store.Table.{HashTable}
use ist_key_value_store.Table.Hash.{IsHashable}
use ist_key_value_store.Machine.{M, World, Client, pure, ◌>>=◌}
use ist_key_value_store.Operations.{Pair, kvs_write, kvs_delete}
use ist_key_value_store.Operations.Text.{IsShort}
use ist_key_value_store.Operations.Write.{AreHashable}
use ist_key_value_store.Clients.{is_invalid, kvs_subscribe, kvs_unsubscribe}
use ist_key_value_store.Clients.Session.{kvs_connect, kvs_disconnect, clean_all_clients}
use ist_key_value_store.Clients.Tracking.{IsAt, AreServed}
use ist_key_value_store.Clients.Tracking.Entries.{has_room}
use ist_key_value_store.Clients.Tracking.Join.{AreOpened, kvs_connect-Joins}
use ist_key_value_store.Clients.Tracking.Leave.{kvs_disconnect-Leaves}
use ist_key_value_store.Clients.Tracking.Restart.{clean_all_clients-Restarts}
use ist_key_value_store.Clients.Tracking.Requests.{subscribe-Continues, unsubscribe-Continues}
use ist_key_value_store.Clients.Tracking.Commands.{write-AreServed, delete-AreServed}

-- A call that a client thread, a job thread or the host thread makes; `restart` is `clean_all_clients`.
pub data Step : Type 0 where
  connect : Str → Str → Str → Step
  disconnect : ℕ → Step
  subscribe : ℕ → Str → Step
  unsubscribe : ℕ → Str → Step
  write : List Pair → Step
  delete : List Str → Step
  restart : Step

-- What the step does, its result left aside.
unfoldable pub perform : Step → M (Unit {0})
perform (connect req resp notif) = do _ ← kvs_connect req resp notif; pure tt
perform (disconnect a) = kvs_disconnect a
perform (subscribe a key) = do _ ← kvs_subscribe key a; pure tt
perform (unsubscribe a key) = do _ ← kvs_unsubscribe key a; pure tt
perform (write pairs) = do _ ← kvs_write pairs; pure tt
perform (delete keys) = do _ ← kvs_delete keys; pure tt
perform restart = do _ ← clean_all_clients; pure tt

-- A request is of a client that is not freed, all keys have buckets and fit, and a client that connects can
-- open its pipes and finds a free entry.
abbrev pub IsAllowed : Step → World → Type 0
IsAllowed (connect req resp notif) w =
    AreOpened w req resp notif × (has_room w.sessions.connected_clients ≡ true)
IsAllowed (disconnect a) w = (c : Client) × IsAt a c w
IsAllowed (subscribe a key) w =
    ((c : Client) × IsAt a c w) × (is_invalid key ≡ false) × IsHashable key
IsAllowed (unsubscribe a key) w =
    ((c : Client) × IsAt a c w) × (is_invalid key ≡ false) × IsHashable key
IsAllowed (write pairs) w = AreHashable pairs
IsAllowed (delete keys) w = All IsHashable keys × All IsShort keys
IsAllowed restart w = Unit {0}

-- All clients that are not freed are served.
abbrev pub IsServed : World → Type 0
IsServed w = (t : HashTable) × AreServed t w

-- Every step returns, and keeps all clients served.
pub perform-IsServed :
    (st : Step) (w : World)
    → IsServed w
    → IsAllowed st w
    → (w' : World) × (perform st w ≡ some (tt, w')) × IsServed w'
unfolding perform
perform-IsServed (connect req resp notif) w (t, s) (o, room) =
    let (a, w', h) = kvs_connect-Joins t w s req resp notif o room in
    (w', ground (arith, h.run), (t, h.served))
perform-IsServed (disconnect a) w (t, s) (c, at) =
    let (t', w', h) = kvs_disconnect-Leaves t w a c s at in (w', h.run, (t', h.served))
perform-IsServed (subscribe a key) w (t, s) ((c, at), valid, ok) =
    let (t', w', d, run, h) = subscribe-Continues t w a c key s at valid ok in
    (w', ground (arith, run), (t', h.served))
perform-IsServed (unsubscribe a key) w (t, s) ((c, at), valid, ok) =
    let (t', w', d, run, h) = unsubscribe-Continues t w a c key s at valid ok in
    (w', ground (arith, run), (t', h.served))
perform-IsServed (write pairs) w (t, s) ok =
    let (t', w', run, same, served) = write-AreServed t w pairs s ok in
    (w', ground (arith, run), (t', served))
perform-IsServed (delete keys) w (t, s) (ok, short) =
    let (t', w', run, same, served) = delete-AreServed t w keys s ok short in
    (w', ground (arith, run), (t', served))
perform-IsServed restart w (t, s) ok =
    let (t', w', h) = clean_all_clients-Restarts t w s in
    (w', ground (arith, h.run), (t', h.served))

-- The states that steps lead to.
pub data Reach (w : World) : World → Type 0 where
  start : Reach w w
  next :
      {v u : World} (st : Step)
      → Reach w v
      → IsAllowed st v
      → perform st v ≡ some (tt, u)
      → Reach w u

same_world :
    (m : Option (Unit {0} × World)) (u v : World) → m ≡ some (tt, u) → m ≡ some (tt, v) → v ≡ u
same_world m u v h k = cc

Reach-IsServed : {w u : World} → Reach w u → IsServed w → IsServed u
Reach-IsServed start s = s
Reach-IsServed (next {v} {u} st r allowed run) s =
    let (u', run', served) = perform-IsServed st v (Reach-IsServed r s) allowed in
    subst IsServed (same_world (perform st v) u u' run run') served

-- If all clients that are not freed are served, they are served after any sequence of connects,
-- disconnects, subscriptions, cancellations, writes, deletes and restarts in any order, each one allowed where it
-- happens, that is: a request is of a client that is not freed, with a valid key, all keys have buckets and
-- fit, and a client that connects finds a free entry and gets pipes that can be used, the one for
-- notifications none of another client. And then every allowed one of them returns and keeps them served.
-- Served means: the table is well formed, no list of subscribers holds a pipe twice, no bucket lock is
-- held, every subscribed pipe is of a client that is not freed and each key that subscribes it is on that
-- client's own list, and each client stands in the table of connected clients once and shares its pipe for
-- notifications with none. Memory, locks and response pipes do not fail.
pub perform-reached :
    {w u : World} (st : Step)
    → IsServed w
    → Reach w u
    → IsAllowed st u
    → IsServed u × (v : World) × (perform st u ≡ some (tt, v)) × IsServed v
perform-reached {w} {u} st s r allowed =
    let served = Reach-IsServed r s in
    let (v, run, after) = perform-IsServed st u served allowed in (served, v, run, after)
