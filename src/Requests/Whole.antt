-- ===== src/Requests/Whole.antt =====
-- server/main.c: a client that connects, sends requests and disconnects leaves nothing behind.
use ist_key_value_store.Prelude.{
  ℕ, suc, ◌<◌, ◌≡◌, ◌∙◌, refl, sym, none, some, List, [], ◌∷◌, Bool, true, false, arith, All,
  get_or, length,
}
use ist_key_value_store.CString.{Str}
use ist_key_value_store.Table.{HashTable}
use ist_key_value_store.Table.Hash.{IsHashable}
use ist_key_value_store.Table.View.{subscribers_of}
use ist_key_value_store.Machine.{World, Client}
use ist_key_value_store.Kvs.Notices.{notices}
use ist_key_value_store.Connections.{ClientInfo}
use ist_key_value_store.Clients.{is_invalid, op_code_disconnect}
use ist_key_value_store.Clients.Forget.{sent_to}
use ist_key_value_store.Clients.Tracking.{IsAt, AreServed, Keeps, Keeps-trans}
use ist_key_value_store.Clients.Tracking.Entries.{has_room}
use ist_key_value_store.Clients.Tracking.Join.{AreOpened, opened, kvs_connect-Joins}
use ist_key_value_store.Clients.Tracking.Leave.{kvs_disconnect-Leaves}
use ist_key_value_store.Clients.Tracking.Requests.{subscribe-Continues, unsubscribe-Continues}
use ist_key_value_store.Requests.{served, serve_client}
use ist_key_value_store.Requests.Serve.{
  Request, subscribe, unsubscribe, request_key, messages, Fits, session, serve_requests-messages,
}

-- A request with a valid key that has a bucket.
abbrev pub IsGood : Request → Type 0
IsGood r = Fits r × (is_invalid (request_key r) ≡ false) × IsHashable (request_key r)

-- What is left of a client behind the pipe `fd`, which was at `a`.
pub record IsGone (fd a : ℕ) (t : HashTable) (w : World) (t' : HashTable) (w' : World)
    : Type 0 where
  pub served : AreServed t' w'
  pub freed_client : get_or w'.sessions.heap a none ≡ none
  pub silent : (key value : Str) → sent_to fd (notices (subscribers_of t' key) key value) ≡ false
  pub keeps : Keeps fd a t w t' w'

-- After a request that changes nothing of the others.
IsGone-after :
    (fd fd' a : ℕ) (t t' t'' : HashTable) (w w' w'' : World)
    → fd' ≡ fd
    → Keeps fd a t w t' w'
    → IsGone fd' a t' w' t'' w''
    → IsGone fd a t w t'' w''
IsGone-after fd fd' a t t' t'' w w' w'' same k g = record {
  served = g.served;
  freed_client = g.freed_client;
  silent = rw (sym same) g.silent;
  keeps = Keeps-trans fd a t t' t'' w w' w'' k (rw (sym same) g.keeps);
}

session-IsGone :
    (signals : ℕ → Bool × Bool) (a : ℕ) (rs : List Request) (t : HashTable) (w : World) (c : Client)
    → AreServed t w
    → IsAt a c w
    → All IsGood rs
    → (t' : HashTable) × (w' : World) × (session signals a rs w ≡ some (served, w'))
      × IsGone c.fd_notif a t w t' w'
session-IsGone signals a [] t w c s at ok =
    let (t', w', h) = kvs_disconnect-Leaves t w a c s at in
    (
      t',
      w',
      ground (arith, h.run),
      record {
        served = h.served;
        freed_client = h.freed_client;
        silent = h.silent;
        keeps = h.keeps;
      },
    )
session-IsGone signals a (subscribe key ∷ rs) t w c s at ok =
    let (t₁, w₁, d, run, h) = subscribe-Continues t w a c key s at ok.0.1 ok.0.2 in
    let (t', w', rest, gone) =
      session-IsGone (λ i. signals (suc i)) a rs t₁ w₁ d h.served h.at ok.1 in
    (
      t',
      w',
      ground (arith, run, rest),
      IsGone-after c.fd_notif d.fd_notif a t t₁ t' w w₁ w' h.same_pipe h.keeps gone,
    )
session-IsGone signals a (unsubscribe key ∷ rs) t w c s at ok =
    let (t₁, w₁, d, run, h) = unsubscribe-Continues t w a c key s at ok.0.1 ok.0.2 in
    let (t', w', rest, gone) =
      session-IsGone (λ i. signals (suc i)) a rs t₁ w₁ d h.served h.at ok.1 in
    (
      t',
      w',
      ground (arith, run, rest),
      IsGone-after c.fd_notif d.fd_notif a t t₁ t' w w₁ w' h.same_pipe h.keeps gone,
    )

All-Fits : (rs : List Request) → All IsGood rs → All Fits rs
All-Fits [] ok = tt
All-Fits (r ∷ rs) ok = (ok.0.0, All-Fits rs ok.1)

-- While all clients are served, a client thread that no signal interrupts serves a client that connects
-- and sends subscriptions and cancellations of valid keys, then the disconnect, to the end, given more fuel
-- than there are requests, if the client's pipes can be used, the one for notifications is none of another
-- client, and the table of clients has a free entry. The client is then freed and no later change is sent to
-- its pipe; every value, all other subscriptions and all other clients are as before; and all clients are
-- served.
pub serve_client-IsGone :
    (n : ℕ) (signals : ℕ → Bool × Bool) (paths : ClientInfo) (rs : List Request) (t : HashTable)
    (w : World)
    → AreServed t w
    → AreOpened w paths.req_fifo paths.resp_fifo paths.notif_fifo
    → has_room w.sessions.connected_clients ≡ true
    → All IsGood rs
    → ((i : ℕ) → (signals i).0 ≡ false)
    → length rs < n
    → (a : ℕ) × (t' : HashTable) × (w' : World) × (serve_client n signals paths
          (messages rs (op_code_disconnect ∷ []))
          w
        ≡ some (served, w'))
      × IsGone (w.sessions.opens paths.notif_fifo) a t w t' w'
serve_client-IsGone n signals paths rs t w s o room ok quiet fuel =
    let c = opened w paths.req_fifo paths.resp_fifo paths.notif_fifo in
    let (a, w₁, h) =
      kvs_connect-Joins t w s paths.req_fifo paths.resp_fifo paths.notif_fifo o room in
    let (t', w', run, gone) = session-IsGone signals a rs t w₁ c h.served h.at ok in
    let loop = serve_requests-messages n signals a rs w₁ fuel quiet (All-Fits rs ok) ∙ run in
    (
      a,
      t',
      w',
      unfold serve_client in ground (arith, h.run, loop),
      IsGone-after c.fd_notif c.fd_notif a t t t' w w₁ w' refl h.keeps gone,
    )
