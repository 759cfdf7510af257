-- ===== src/Requests.antt =====
-- The protocol between clients and the server: the messages of proj_p2/src/client/api.c, and how the
-- threads of proj_p2/src/server/main.c read them and serve a client. What a pipe holds is a list of
-- bytes, then its end.
pub mod Messages
pub mod Overflow
pub mod Serve
pub mod Ends
pub mod Whole
use ist_key_value_store.Prelude.{
  ℕ, zero, suc, ◌+◌, ◌-◌, ◌*◌, List, [], ◌∷◌, ◌++◌, Option, none, some, Bool, true, false, ℤ, pos,
  negsuc, leb, ◌==◌, length, take, drop, replicate, if◌then◌else◌,
}
use ist_key_value_store.CString.{Str, c_str}
use ist_key_value_store.Table.{first_byte}
use ist_key_value_store.Machine.{M, fault, pure, ◌>>=◌, ◌>>◌}
use ist_key_value_store.Kvs.{key_message_size}
use ist_key_value_store.Connections.{ClientInfo}
use ist_key_value_store.Clients.{
  op_code_connect, op_code_disconnect, op_code_subscribe, op_code_unsubscribe, kvs_subscribe,
  kvs_unsubscribe,
}
use ist_key_value_store.Clients.Session.{kvs_connect, kvs_disconnect}

abbrev pub max_pipe_path_length : ℕ
max_pipe_path_length = 40

-- `fill_with_nulls` of client/parser.c: the string, cut at `size` bytes, and NULs up to there.
unfoldable pub fill_with_nulls : Str → ℕ → Str
fill_with_nulls message size = take size message ++ replicate (size - length message) 0

-- What `write_connect_message` writes.
unfoldable pub connect_message : ClientInfo → Str
unfolding fill_with_nulls
connect_message c =
    op_code_connect ∷ fill_with_nulls c.req_fifo max_pipe_path_length
    ++ (fill_with_nulls c.resp_fifo max_pipe_path_length
        ++ fill_with_nulls c.notif_fifo max_pipe_path_length)

-- What `kvs_subscribe` and `kvs_unsubscribe` of the client write: the code and the key.
unfoldable pub key_message : ℕ → Str → Str
unfolding fill_with_nulls
key_message opcode key = opcode ∷ fill_with_nulls key key_message_size

-- Whether there is a NUL in an array.
unfoldable pub has_nul : Str → Bool
has_nul [] = false
has_nul (c ∷ cs) = if c == 0 then true else has_nul cs

-- `strncpy(dest, src, MAX_PIPE_PATH_LENGTH)` into an array of that size, as a string; `none` without a NUL
-- in the array, where the copies of the string run past the arrays of `struct ClientInfo`.
unfoldable pub path_at : ℕ → Str → Option Str
unfolding has_nul
path_at i buffer =
    let field = take max_pipe_path_length (drop i buffer) in
    if has_nul field then some (c_str field) else none

unfoldable pub paths_at : Str → Option ClientInfo
unfolding path_at
paths_at buffer = elim (path_at 1 buffer) [
  | none ↦ none
  | some req ↦ elim (path_at (1 + max_pipe_path_length) buffer) [
    | none ↦ none
    | some resp ↦ elim (path_at (1 + max_pipe_path_length * 2) buffer) [
      | none ↦ none
      | some notif ↦ some (record { resp_fifo = resp; req_fifo = req; notif_fifo = notif })
    ]
  ]
]

-- `read_connect_message` on what the pipe holds: the paths, `none` where it returns 1, and the rest; or
-- undefined behaviour, for a path without room for its NUL. The function also stores a NUL one byte past
-- each of the arrays of its caller, whatever the message is; they are taken to hit nothing.
unfoldable pub read_connect_message : Str → Option (Option ClientInfo × Str)
unfolding paths_at
read_connect_message input =
    let size = max_pipe_path_length * 3 + 1 in
    let buffer = take size input in
    let rest = drop size input in
    if leb size (length input)
    then (if first_byte buffer == op_code_connect
        then elim (paths_at buffer) [ none ↦ none | some c ↦ some (some c, rest) ]
        else some (none, rest))
    else some (none, rest)

-- The key in its array: none could be read, one without a NUL, which the code reads on behind the array,
-- or a string.
pub data KeyField : Type 0 where
  no_key no_end : KeyField
  the_key : Str → KeyField

-- `read_all` of a key from the request pipe.
unfoldable pub read_key : Str → KeyField × Str
unfolding has_nul
read_key input =
    let field = take key_message_size input in
    if leb key_message_size (length input)
    then ((if has_nul field then the_key (c_str field) else no_end), drop key_message_size input)
    else (no_key, [])

-- The client is disconnected, unless a signal has done so.
unfoldable pub drop_client : Bool → ℕ → M ℕ
unfolding kvs_disconnect
drop_client disconnect_control a =
    if disconnect_control then pure 1 else do kvs_disconnect a; pure 1

-- A request with a key: 1 if the client is gone.
unfoldable pub serve_subscribe : Bool → ℕ → KeyField → M ℕ
unfolding drop_client
serve_subscribe disconnect_control a no_end = fault
serve_subscribe disconnect_control a no_key = drop_client disconnect_control a
serve_subscribe disconnect_control a (the_key key) = do
  status ← kvs_subscribe key a
  elim status [
    | pos zero ↦ pure 0
    | pos (suc _) ↦ drop_client disconnect_control a
    | negsuc _ ↦ drop_client disconnect_control a
  ]

unfoldable pub serve_unsubscribe : Bool → ℕ → KeyField → M ℕ
unfolding drop_client
serve_unsubscribe disconnect_control a no_end = fault
serve_unsubscribe disconnect_control a no_key = drop_client disconnect_control a
serve_unsubscribe disconnect_control a (the_key key) = do _ ← kvs_unsubscribe key a; pure 0

abbrev and_rest : Str → M ℕ → M (ℕ × Str)
and_rest rest m = do status ← m; pure (status, rest)

-- What the function returns, and what is left in the request pipe.
unfoldable pub manage_request : Bool → ℕ → ℕ → Str → M (ℕ × Str)
unfolding drop_client serve_subscribe serve_unsubscribe read_key kvs_disconnect
manage_request disconnect_control a opcode input =
    let (key, rest) = read_key input in
    if opcode == op_code_connect
    then pure (0, input)
    else if opcode == op_code_disconnect
    then and_rest input (drop_client false a)
    else if opcode == op_code_subscribe
    then and_rest rest (serve_subscribe disconnect_control a key)
    else if opcode == op_code_unsubscribe
    then and_rest rest (serve_unsubscribe disconnect_control a key)
    else and_rest input (drop_client disconnect_control a)

-- How a round of `process_client_thread` ends: the client is served, or it could not connect, or it was left
-- by a signal, or for lack of fuel, which is not part of the program.
pub data Session : Type 0 where
  served refused signalled out_of_fuel : Session

-- The loop, with fuel for `n` rounds, on what is in the request pipe before its end. `signals` has the
-- values of `disconnectControl` in the rounds to come: where the loop tests it, and in `manage_request`.
unfoldable pub serve_requests : ℕ → (ℕ → Bool × Bool) → ℕ → Str → M Session
unfolding manage_request kvs_disconnect
serve_requests zero signals a input = pure out_of_fuel
serve_requests (suc n) signals a [] = elim (signals 0).0 [
  | true ↦ pure signalled
  | false ↦ do kvs_disconnect a; pure served
]
serve_requests (suc n) signals a (opcode ∷ input) = elim (signals 0).0 [
  | true ↦ pure signalled
  | false ↦ do
    (client_status, rest) ← manage_request (signals 0).1 a opcode input
    elim client_status [
      | zero ↦ serve_requests n (λ i. signals (suc i)) a rest
      | suc _ ↦ pure served
    ]
]

-- A round of the loop of `process_client_thread`: the client with these paths connects and is served. A
-- client that could not connect is disconnected, which is an access through NULL if there is none.
unfoldable pub serve_client : ℕ → (ℕ → Bool × Bool) → ClientInfo → Str → M Session
unfolding kvs_connect kvs_disconnect serve_requests
serve_client n signals paths input = do
  (status, client) ← kvs_connect paths.req_fifo paths.resp_fifo paths.notif_fifo
  elim client [
    | none ↦ fault
    | some a ↦ elim status [
      | zero ↦ serve_requests n signals a input
      | suc _ ↦ do kvs_disconnect a; pure refused
    ]
  ]
