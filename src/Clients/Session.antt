-- ===== src/Clients/Session.antt =====
-- server/operations.c: the table of connected clients. The mutex around it is held for the whole of
-- `add_client`, `remove_client` and `clean_all_clients`, so each is one step.
use ist_key_value_store.Prelude.{
  ℕ, ◌+◌, ◌^◌, List, [], ◌∷◌, ◌++◌, Option, none, some, Bool, true, false, leb, ◌==◌, ◌&&◌, ◌||◌,
  not, set, length, if◌then◌else◌,
}
use ist_key_value_store.CString.{Str}
use ist_key_value_store.Machine.{M, Client, pure, fault, ◌>>=◌, ◌>>◌, gets, modify, malloc}
use ist_key_value_store.Clients.{
  op_code_connect, op_code_disconnect, get_client, put_client, write_to_resp_pipe, close,
  kvs_aux_unsubscribe,
}

-- A negative `int`.
abbrev pub is_negative : ℕ → Bool
is_negative fd = leb (2 ^ 31) fd

-- The first NULL entry is taken, or there is none.
unfoldable pub take_entry : ℕ → List (Option ℕ) → Option (List (Option ℕ))
take_entry a [] = none
take_entry a (none ∷ cs) = some (some a ∷ cs)
take_entry a (some b ∷ cs) = elim (take_entry a cs) [ none ↦ none | some cs' ↦ some (some b ∷ cs') ]

abbrev set_connected : List (Option ℕ) → M (Unit {0})
set_connected cs =
    modify (λ w. record w { sessions = record w.sessions { connected_clients = cs } })

unfoldable pub add_client : ℕ → M ℕ
unfolding take_entry
add_client a = do
  clients ← gets (λ w. w.sessions.connected_clients)
  elim (take_entry a clients) [ none ↦ pure 1 | some clients' ↦ do set_connected clients'; pure 0 ]

abbrev has_pipes : ℕ → ℕ → ℕ → Client → Bool
has_pipes req resp notif c = (c.fd_req == req) && (c.fd_resp == resp) && (c.fd_notif == notif)

-- The loop of `remove_client` over the entries from `i` on.
unfoldable pub remove_entry : ℕ → ℕ → ℕ → ℕ → List (Option ℕ) → M ℕ
unfolding get_client put_client
remove_entry req resp notif i [] = pure 1
remove_entry req resp notif i (none ∷ cs) = remove_entry req resp notif (i + 1) cs
remove_entry req resp notif i (some a ∷ cs) = do
  c ← get_client a
  elim (has_pipes req resp notif c) [
    | false ↦ remove_entry req resp notif (i + 1) cs
    | true ↦ do
      put_client a none
      modify (λ w. record w {
        sessions = record w.sessions {
          connected_clients = set w.sessions.connected_clients i none;
        };
      })
      pure 0
  ]

unfoldable pub remove_client : ℕ → ℕ → ℕ → M ℕ
unfolding remove_entry
remove_client req resp notif = do
  clients ← gets (λ w. w.sessions.connected_clients)
  remove_entry req resp notif 0 clients

-- A new client at a new address.
unfoldable pub allocate_client : Client → M ℕ
allocate_client c w = some (
  length w.sessions.heap,
  record w { sessions = record w.sessions { heap = w.sessions.heap ++ some c ∷ [] } },
)

-- The result and the client's address, if one was allocated. Without memory the response is written
-- through a NULL pointer.
unfoldable pub kvs_connect : Str → Str → Str → M (ℕ × Option ℕ)
unfolding malloc allocate_client add_client write_to_resp_pipe
kvs_connect req_pipe resp_pipe notif_pipe = do
  opens ← gets (λ w. w.sessions.opens)
  let fd_notif = opens notif_pipe
  let fd_req = opens req_pipe
  let fd_resp = opens resp_pipe
  if is_negative fd_resp then pure (1, none) else do
    allocated ← malloc
    if not allocated then fault else do
      a ←
          allocate_client
            (record { fd_req = fd_req; fd_resp = fd_resp; fd_notif = fd_notif; subscriptions = [] })
      full ← add_client a
      let result = if is_negative fd_notif || is_negative fd_req || full == 1 then 1 else 0
      _ ← write_to_resp_pipe fd_resp op_code_connect (if result == 0 then b'0' else b'1')
      pure (result, some a)

-- The loop over the client's keys.
unfoldable pub unsubscribe_keys : List Str → ℕ → M (Unit {0})
unfolding kvs_aux_unsubscribe
unsubscribe_keys [] a = pure tt
unsubscribe_keys (key ∷ keys) a = do _ ← kvs_aux_unsubscribe key a; unsubscribe_keys keys a

unfoldable pub forget_subscriptions : ℕ → M (Unit {0})
unfolding get_client put_client unsubscribe_keys
forget_subscriptions a = do
  c ← get_client a
  unsubscribe_keys c.subscriptions a
  put_client a (some (record c { subscriptions = [] }))

unfoldable pub kvs_disconnect : ℕ → M (Unit {0})
unfolding get_client forget_subscriptions close write_to_resp_pipe remove_client
kvs_disconnect a = do
  forget_subscriptions a
  c ← get_client a
  req_failed ← close c.fd_req
  notif_failed ← close c.fd_notif
  _ ←
      write_to_resp_pipe c.fd_resp op_code_disconnect
        (if req_failed || notif_failed then b'1' else b'0')
  _ ← close c.fd_resp
  _ ← remove_client c.fd_req c.fd_resp c.fd_notif
  pure tt

-- The loop of `clean_all_clients` over the entries from `i` on.
unfoldable pub clean_entries : ℕ → List (Option ℕ) → M (Unit {0})
unfolding get_client put_client forget_subscriptions close
clean_entries i [] = pure tt
clean_entries i (none ∷ cs) = clean_entries (i + 1) cs
clean_entries i (some a ∷ cs) = do
  forget_subscriptions a
  c ← get_client a
  _ ← close c.fd_req
  _ ← close c.fd_notif
  _ ← close c.fd_resp
  put_client a none
  modify (λ w. record w {
    sessions = record w.sessions { connected_clients = set w.sessions.connected_clients i none };
  })
  clean_entries (i + 1) cs

unfoldable pub clean_all_clients : M ℕ
unfolding clean_entries
clean_all_clients = do
  clients ← gets (λ w. w.sessions.connected_clients)
  clean_entries 0 clients
  pure 0
