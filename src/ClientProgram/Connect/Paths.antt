-- ===== src/ClientProgram/Connect/Paths.antt =====
-- client/main.c, client/api.c and server/main.c: whether the server opens the pipes that a client has made
-- depends on the length of the client's identifier.
use ist_key_value_store.Prelude.{
  ltb, if◌then◌else◌, Bool-cases, inl, inr, none, ◌≤◌, ◌<◌, ◌≡◌, ◌≢◌, sym, ap, ◌∙◌, [], ◌∷◌, ◌++◌,
  some, true, arith, All, length, length-append, append-nil,
}
use ist_key_value_store.CString.{Str, codes, strlen}
use ist_key_value_store.Connections.{ClientInfo}
use ist_key_value_store.Requests.{read_connect_message, connect_message}
use ist_key_value_store.Requests.Overflow.{read_connect_message-overflows}
use ist_key_value_store.Requests.Messages.{FitsMessage, read_connect_message-connect_message}
use ist_key_value_store.ClientProgram.Connect.{
  Setup, pipe_path, pipe_paths, kvs_connect, after_connect, connect,
}
use ist_key_value_store.ClientProgram.Connect.Branches.{kvs_connect-HasConnected}

-- The paths, where they fit their arrays.
abbrev pub paths_of : Str → ClientInfo
paths_of id = record {
  resp_fifo = codes "/tmp/resp" ++ id;
  req_fifo = codes "/tmp/req" ++ id;
  notif_fifo = codes "/tmp/notif" ++ id;
}

pipe_paths-paths_of : (id : Str) (c : ClientInfo) → pipe_paths id ≡ some c → c ≡ paths_of id
unfolding pipe_paths pipe_path
pipe_paths-paths_of id c e = ground arith

pub pipe_paths-short : (id : Str) → length id ≤ 122 → pipe_paths id ≡ some (paths_of id)
unfolding pipe_paths pipe_path strlen
pipe_paths-short id l = ground (
  arith,
  length-append (codes "/tmp/req") id,
  length-append (codes "/tmp/resp") id,
  length-append (codes "/tmp/notif") id,
)

paths_of-FitsMessage : (id : Str) → All (λ c. c ≢ 0) id → length id ≤ 29 → FitsMessage (paths_of id)
paths_of-FitsMessage id plain short = record {
  resp = (ground arith, omega (arith, length-append (codes "/tmp/resp") id));
  req = (ground arith, omega (arith, length-append (codes "/tmp/req") id));
  notif = (ground arith, omega (arith, length-append (codes "/tmp/notif") id));
}

-- A client is connected if its `kvs_connect` returns 0.
connect-connected :
    (id server_pipe_path : Str) (s s' : Setup) (c : ClientInfo)
    → pipe_paths id ≡ some c
    → connect id server_pipe_path s ≡ some (true, s')
    → ((kvs_connect c server_pipe_path s).0 ≡ 0) × ((kvs_connect c server_pipe_path s).1 ≡ s')
unfolding connect after_connect
connect-connected id path s s' c paths e = (ground arith, ground arith)

-- What a connected client has written to the server's pipe.
messages-connect :
    (id server_pipe_path : Str) (s s' : Setup) (c : ClientInfo)
    → pipe_paths id ≡ some c
    → connect id server_pipe_path s ≡ some (true, s')
    → s'.messages ≡ s.messages ++ connect_message c
messages-connect id path s s' c paths e =
    let (zero_status, same) = connect-connected id path s s' c paths e in
    let (server, opened, h) = kvs_connect-HasConnected c path s zero_status in
    ap (λ t. t.messages) (sym same) ∙ h.messages

All-append : (xs ys : Str) → All (λ c. c ≢ 0) xs → All (λ c. c ≢ 0) ys → All (λ c. c ≢ 0) (xs ++ ys)
All-append [] ys h k = k
All-append (x ∷ xs) ys h k = (h.0, All-append xs ys h.1 k)

read-short :
    (id : Str)
    → All (λ c. c ≢ 0) id
    → length id < 30
    → read_connect_message (connect_message (paths_of id)) ≡ some (some (paths_of id), [])
read-short id plain short =
    let c = paths_of id in
    let read =
      read_connect_message-connect_message c [] (paths_of-FitsMessage id plain (omega arith)) in
    rw (append-nil (connect_message c)) at read

read-long :
    (id : Str)
    → All (λ c. c ≢ 0) id
    → 30 ≤ length id
    → read_connect_message (connect_message (paths_of id)) ≡ none
read-long id plain long =
    let c = paths_of id in
    let over =
      read_connect_message-overflows c [] (All-append (codes "/tmp/notif") id (ground arith) plain)
        (omega (arith, long, length-append (codes "/tmp/notif") id)) in
    rw (append-nil (connect_message c)) at over

-- A client that is connected, with an identifier without a NUL, is found by the server exactly if the
-- identifier is shorter than 30 bytes: then `read_connect_message` delivers the paths of the pipes that the
-- client has made. With 30 bytes or more, the path of the notification pipe fills its field of 40 bytes in
-- the connect message, and the server runs into undefined behaviour: the array for the path has no room for
-- its NUL, and the copy of the path runs past the next array. The NUL that the server stores behind each of
-- its arrays for any message is taken to hit nothing.
pub connect_is_read :
    (id server_pipe_path : Str) (s s' : Setup) (c : ClientInfo)
    → All (λ b. b ≢ 0) id
    → s.messages ≡ []
    → pipe_paths id ≡ some c
    → connect id server_pipe_path s ≡ some (true, s')
    → read_connect_message s'.messages ≡ (if ltb (length id) 30 then some (some c, []) else none)
connect_is_read id path s s' c plain fresh paths e =
    let sent : s'.messages ≡ connect_message (paths_of id) =
      messages-connect id path s s' c paths e
      ∙ (ap (λ m. m ++ connect_message c) fresh
          ∙ ap connect_message (pipe_paths-paths_of id c paths)) in
    elim (Bool-cases (ltb (length id) 30)) [
      | inl short ↦
          rw (short, sent, pipe_paths-paths_of id c paths) (read-short id plain (ground arith))
      | inr long ↦ rw (long, sent) (read-long id plain (ground arith))
    ]
