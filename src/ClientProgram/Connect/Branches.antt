-- ===== src/ClientProgram/Connect/Branches.antt =====
-- client/api.c and client/main.c: what a client has done when it is connected, and when it is not.
use ist_key_value_store.Prelude.{
  ℕ, zero, suc, ◌≡◌, ◌≢◌, ◌↔◌, inl, inr, List, [], ◌∷◌, ◌++◌, none, some, Bool, true, false, arith,
  append_assoc, Bool-cases, Option-cases,
}
use mathlib.Core.Option.{map}
use ist_key_value_store.CString.{Str}
use ist_key_value_store.Connections.{ClientInfo}
use ist_key_value_store.Requests.{connect_message}
use ist_key_value_store.ClientProgram.Connect.{
  Setup, uninitialised, descriptor, any_unlink_fails, make_fifos, write_connect_message, close_both,
  open_pipes, connect_through, kvs_connect, read_connect_response, pipe_paths, after_connect,
  connect,
}

-- What the system must do for a client to be connected.
pub record CanConnect (c : ClientInfo) (server_pipe_path : Str) (s : Setup) : Type 0 where
  pub access : s.access_fails server_pipe_path ≡ false
  pub server : s.opens server_pipe_path ≢ none
  pub unlinks :
      (s.unlink_fails c.req_fifo ≡ false)
      × (s.unlink_fails c.resp_fifo ≡ false)
      × (s.unlink_fails c.notif_fifo ≡ false)
  pub makes :
      (s.mkfifo_fails c.req_fifo ≡ false)
      × (s.mkfifo_fails c.resp_fifo ≡ false)
      × (s.mkfifo_fails c.notif_fifo ≡ false)
  pub writes : s.write_fails ≡ false
  pub opens :
      (s.opens c.req_fifo ≢ none) × (s.opens c.resp_fifo ≢ none) × (s.opens c.notif_fifo ≢ none)

-- What a client that is connected has done, by the descriptor of the server's pipe.
pub record HasConnected (c : ClientInfo) (server : ℕ) (s s' : Setup) : Type 0 where
  pub closed : s'.closed ≡ s.closed ++ server ∷ []
  pub fifos : s'.fifos ≡ s.fifos ++ (c.req_fifo ∷ c.resp_fifo ∷ c.notif_fifo ∷ [])
  pub messages : s'.messages ≡ s.messages ++ connect_message c

-- The three conditions of `connect_through` on the paths, and what it needs of the pipes.
abbrev NoneFails : (Str → Bool) → ClientInfo → Type 0
NoneFails fails c =
    (fails c.req_fifo ≡ false) × (fails c.resp_fifo ≡ false) × (fails c.notif_fifo ≡ false)

connect_through-status :
    (server : ℕ) (c : ClientInfo) (s : Setup)
    → (connect_through server c s).0 ≡ 0
    → NoneFails s.unlink_fails c
      × NoneFails s.mkfifo_fails c
      × (s.write_fails ≡ false)
      × (s.opens c.req_fifo ≢ none)
      × (s.opens c.resp_fifo ≢ none)
      × (s.opens c.notif_fifo ≢ none)
unfolding connect_through any_unlink_fails make_fifos write_connect_message open_pipes
    read_connect_response
connect_through-status server c s e =
    (ground arith, ground arith, ground arith, ground arith, ground arith, ground arith)

connect_through-HasConnected :
    (server : ℕ) (c : ClientInfo) (s : Setup)
    → (connect_through server c s).0 ≡ 0
    → HasConnected c server s (connect_through server c s).1
unfolding connect_through any_unlink_fails make_fifos write_connect_message open_pipes
    read_connect_response
connect_through-HasConnected server c s e = record {
  closed = ground arith;
  fifos = ground (
    arith,
    append_assoc s.fifos (c.req_fifo ∷ []) (c.resp_fifo ∷ []),
    append_assoc s.fifos (c.req_fifo ∷ c.resp_fifo ∷ []) (c.notif_fifo ∷ []),
  );
  messages = ground arith;
}

connect_through-connects :
    (server : ℕ) (c : ClientInfo) (s : Setup)
    → NoneFails s.unlink_fails c
    → NoneFails s.mkfifo_fails c
    → s.write_fails ≡ false
    → s.opens c.req_fifo ≢ none
    → s.opens c.resp_fifo ≢ none
    → s.opens c.notif_fifo ≢ none
    → (connect_through server c s).0 ≡ 0
unfolding connect_through any_unlink_fails make_fifos write_connect_message open_pipes
    read_connect_response
connect_through-connects server c s u m w o p q = ground arith

-- `kvs_connect` returns 0 exactly if no call of the system that it needs fails.
pub kvs_connect-CanConnect :
    (c : ClientInfo) (server_pipe_path : Str) (s : Setup)
    → ((kvs_connect c server_pipe_path s).0 ≡ 0) ↔ CanConnect c server_pipe_path s
unfolding kvs_connect
kvs_connect-CanConnect c path s = (needs, connects)
  where
    needs : (kvs_connect c path s).0 ≡ 0 → CanConnect c path s
    needs e = elim (Option-cases (s.opens path)) [
      | inl missing ↦ ground arith
      | inr (server, found) ↦ elim (Bool-cases (s.access_fails path)) [
        | inl refused ↦ ground arith
        | inr allowed ↦
            let t = record s { fd_server_pipe = descriptor server } in
            let (u, m, w, o₁, o₂, o₃) = connect_through-status server c t (ground arith) in
            record {
              access = allowed;
              server = ground arith;
              unlinks = u;
              makes = m;
              writes = w;
              opens = (o₁, o₂, o₃);
            }
      ]
    ]

    connects : CanConnect c path s → (kvs_connect c path s).0 ≡ 0
    connects can = elim (Option-cases (s.opens path)) [
      | inl missing ↦ absurd (can.server missing)
      | inr (server, found) ↦
          let t = record s { fd_server_pipe = descriptor server } in
          ground (
            arith,
            can.access,
            connect_through-connects server c t can.unlinks can.makes can.writes can.opens.0
                can.opens.1 can.opens.2,
          )
    ]

-- A client whose `kvs_connect` returns 0 has made its three pipes, has written one message to the
-- server's pipe, the connect message of its paths, and has closed the server's pipe once.
pub kvs_connect-HasConnected :
    (c : ClientInfo) (server_pipe_path : Str) (s : Setup)
    → (kvs_connect c server_pipe_path s).0 ≡ 0
    → (server : ℕ) × (s.opens server_pipe_path ≡ some server)
      × HasConnected c server s (kvs_connect c server_pipe_path s).1
unfolding kvs_connect
kvs_connect-HasConnected c path s e = elim (Option-cases (s.opens path)) [
  | inl missing ↦ ground arith
  | inr (server, found) ↦ elim (Bool-cases (s.access_fails path)) [
    | inl refused ↦ ground arith
    | inr allowed ↦
        let t = record s { fd_server_pipe = descriptor server } in
        let h = connect_through-HasConnected server c t (ground arith) in
        (
          server,
          found,
          record {
            closed = ground (arith, h.closed);
            fifos = ground (arith, h.fifos);
            messages = ground (arith, h.messages);
          },
        )
  ]
]

-- `connect_through` leaves the variable of the server's pipe alone.
connect_through-fd_server_pipe :
    (server : ℕ) (c : ClientInfo) (s : Setup)
    → (connect_through server c s).1.fd_server_pipe ≡ s.fd_server_pipe
unfolding connect_through make_fifos write_connect_message open_pipes read_connect_response
    close_both
connect_through-fd_server_pipe server c s = ground arith

after_connect-descriptor :
    (status server : ℕ) (s : Setup)
    → s.fd_server_pipe ≡ descriptor server
    → after_connect status s ≢ none
unfolding after_connect
after_connect-descriptor zero server s e h = cc
after_connect-descriptor (suc _) server s e h = ground arith

-- `main` of a client uses the variable of the server's pipe before it is set exactly if `access` to that
-- pipe fails, and is undefined behaviour then: for an identifier whose paths fit their arrays.
pub connect_faults :
    (id server_pipe_path : Str) (s : Setup)
    → pipe_paths id ≢ none
    → s.fd_server_pipe ≡ uninitialised
    → (connect id server_pipe_path s ≡ none) ↔ (s.access_fails server_pipe_path ≡ true)
unfolding connect kvs_connect
connect_faults id path s fits unset = (only_if, if_refused)
  where
    only_if : connect id path s ≡ none → s.access_fails path ≡ true
    only_if e = elim (Bool-cases (s.access_fails path)) [
      | inl refused ↦ refused
      | inr allowed ↦ elim (Option-cases (pipe_paths id)) [
        | inl long ↦ absurd (fits long)
        | inr (c, paths) ↦ elim (Option-cases (s.opens path)) [
          | inl missing ↦ unfold after_connect in ground arith
          | inr (server, found) ↦
              let t = record s { fd_server_pipe = descriptor server } in
              let r = connect_through server c t in
              ground (
                arith,
                connect_through-fd_server_pipe server c t,
                after_connect-descriptor r.0 server r.1,
              )
        ]
      ]
    ]

    if_refused : s.access_fails path ≡ true → connect id path s ≡ none
    if_refused refused = unfold after_connect in ground arith

-- If the notification pipe cannot be opened once the connect message is sent, `kvs_connect` has closed
-- the server's pipe, and `main` closes the same descriptor again.
pub connect_closes_twice :
    (id server_pipe_path : Str) (c : ClientInfo) (server : ℕ) (s : Setup)
    → pipe_paths id ≡ some c
    → s.access_fails server_pipe_path ≡ false
    → s.opens server_pipe_path ≡ some server
    → NoneFails s.unlink_fails c
    → NoneFails s.mkfifo_fails c
    → s.write_fails ≡ false
    → s.opens c.notif_fifo ≡ none
    → map {B = Bool × List ℕ} (λ r. (r.0, r.1.closed)) (connect id server_pipe_path s)
      ≡ some (false, s.closed ++ (server ∷ server ∷ []))
unfolding connect kvs_connect after_connect connect_through any_unlink_fails make_fifos
    write_connect_message open_pipes
connect_closes_twice id path c server s paths access found u m w missing =
    ground (arith, append_assoc s.closed (server ∷ []) (server ∷ []))
