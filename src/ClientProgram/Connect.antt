-- ===== src/ClientProgram/Connect.antt =====
-- client/api.c and client/main.c: how a client connects. The calls of the system are functions of their
-- arguments, given with the state.
pub mod Branches
pub mod Paths
use ist_key_value_store.Prelude.{
  ℕ, zero, suc, ◌+◌, List, [], ◌∷◌, ◌++◌, Option, none, some, Bool, true, false, ltb, length, not,
  if◌then◌else◌,
}
use ist_key_value_store.CString.{Str, codes, strlen}
use ist_key_value_store.Connections.{ClientInfo}
use ist_key_value_store.Clients.{op_code_connect}
use ist_key_value_store.Requests.{connect_message}
use ist_key_value_store.ClientProgram.Api.{Connection, read_server_response}

-- A variable for a descriptor: before it is set, with the result of an `open` that failed, or with that of
-- one that worked.
pub data Descriptor : Type 0 where
  uninitialised negative : Descriptor
  descriptor : ℕ → Descriptor

pub record Setup : Type 0 where
  -- whether `access`, `unlink` (but for ENOENT) and `mkfifo` of a path fail
  pub access_fails : Str → Bool
  pub unlink_fails : Str → Bool
  pub mkfifo_fails : Str → Bool
  -- the descriptor that `open` returns, `none` if it is negative
  pub opens : Str → Option ℕ
  -- whether `write_all` to the server's pipe fails, and `close` of a descriptor
  pub write_fails : Bool
  pub close_fails : ℕ → Bool
  -- the pipes that were made, the descriptors that were closed, and what was written to the server's pipe
  pub fifos : List Str
  pub closed : List ℕ
  pub messages : Str
  -- the variables of `main`
  pub fd_server_pipe : Descriptor
  pub fd_notification_pipe : Descriptor
  pub fd_request_pipe : Descriptor
  pub fd_response_pipe : Descriptor
  pub connection : Connection

abbrev close : ℕ → Setup → Setup
close fd s = record s { closed = s.closed ++ fd ∷ [] }

-- The calls for the three paths, which the code writes out one by one; the first that fails is the last.
unfoldable pub any_unlink_fails : List Str → Setup → Bool
any_unlink_fails [] s = false
any_unlink_fails (path ∷ paths) s = if s.unlink_fails path then true else any_unlink_fails paths s

-- Whether a `mkfifo` failed, and the pipes that were made.
unfoldable pub make_fifos : List Str → Setup → Bool × Setup
make_fifos [] s = (false, s)
make_fifos (path ∷ paths) s = elim (s.mkfifo_fails path) [
  | true ↦ (true, s)
  | false ↦ make_fifos paths (record s { fifos = s.fifos ++ path ∷ [] })
]

unfoldable pub write_connect_message : ClientInfo → Setup → Bool × Setup
unfolding connect_message
write_connect_message c s = elim s.write_fails [
  | true ↦ (false, s)
  | false ↦ (true, record s { messages = s.messages ++ connect_message c })
]

-- The response of the server is read; a failure is only reported.
unfoldable pub read_connect_response : Setup → ℕ × Setup
unfolding read_server_response
read_connect_response s =
    (0, record s { connection = (read_server_response op_code_connect s.connection).1 })

-- `close(a) || close(b)`
unfoldable pub close_both : ℕ → ℕ → Setup → Setup
close_both a b s = if s.close_fails a then close a s else close b (close a s)

-- The client's ends of its pipes are opened. If one cannot be, those before it are closed.
unfoldable pub open_pipes : ClientInfo → Setup → ℕ × Setup
unfolding read_connect_response close_both
open_pipes c s = elim (s.opens c.notif_fifo) [
  | none ↦ (1, record s { fd_notification_pipe = negative })
  | some notif ↦ elim (s.opens c.req_fifo) [
    | none ↦ (
      1,
      close notif
          (record s { fd_notification_pipe = descriptor notif; fd_request_pipe = negative }),
    )
    | some req ↦ elim (s.opens c.resp_fifo) [
      | none ↦ (
        1,
        close_both notif req (record s {
          fd_notification_pipe = descriptor notif;
          fd_request_pipe = descriptor req;
          fd_response_pipe = negative;
        }),
      )
      | some resp ↦ read_connect_response (record s {
        fd_notification_pipe = descriptor notif;
        fd_request_pipe = descriptor req;
        fd_response_pipe = descriptor resp;
      })
    ]
  ]
]

-- Once the server's pipe is open.
unfoldable pub connect_through : ℕ → ClientInfo → Setup → ℕ × Setup
unfolding any_unlink_fails make_fifos write_connect_message open_pipes
connect_through server c s =
    let paths = c.req_fifo ∷ c.resp_fifo ∷ c.notif_fifo ∷ [] in
    let (fails, made) = make_fifos paths s in
    let (written, sent) = write_connect_message c made in
    if any_unlink_fails paths s
    then (1, s)
    else if fails
    then (1, made)
    else if not written
    then (1, sent)
    else open_pipes c (close server sent)

unfoldable pub kvs_connect : ClientInfo → Str → Setup → ℕ × Setup
unfolding connect_through
kvs_connect c server_pipe_path s = elim (s.access_fails server_pipe_path) [
  | true ↦ (1, s)
  | false ↦ elim (s.opens server_pipe_path) [
    | none ↦ (1, record s { fd_server_pipe = negative })
    | some server ↦ connect_through server c (record s { fd_server_pipe = descriptor server })
  ]
]

-- The size of the arrays of the paths.
abbrev pub path_size : ℕ
path_size = 256

-- A path of `main`. The NUL is put as far behind the path as the identifier is long, and must be in the
-- array.
unfoldable pub pipe_path : Str → Str → Option Str
pipe_path start id =
    if ltb (strlen (start ++ id) + strlen id) path_size then some (start ++ id) else none

unfoldable pub pipe_paths : Str → Option ClientInfo
unfolding pipe_path
pipe_paths id = elim (pipe_path (codes "/tmp/req") id) [
  | none ↦ none
  | some req ↦ elim (pipe_path (codes "/tmp/resp") id) [
    | none ↦ none
    | some resp ↦ elim (pipe_path (codes "/tmp/notif") id) [
      | none ↦ none
      | some notif ↦ some (record { resp_fifo = resp; req_fifo = req; notif_fifo = notif })
    ]
  ]
]

-- What `main` does with the result: it closes the server's pipe if the client is not connected. `none` is
-- undefined behaviour, the use of a variable that is not initialised.
unfoldable pub after_connect : ℕ → Setup → Option (Bool × Setup)
after_connect zero s = some (true, s)
after_connect (suc _) s = elim s.fd_server_pipe [
  | uninitialised ↦ none
  | negative ↦ some (false, s)
  | descriptor server ↦ some (false, close server s)
]

-- `main` up to the loop over the commands: whether the client is connected. `none` is undefined
-- behaviour: that of `after_connect`, or a path too long.
unfoldable pub connect : Str → Str → Setup → Option (Bool × Setup)
unfolding pipe_paths kvs_connect after_connect
connect id server_pipe_path s = elim (pipe_paths id) [
  | none ↦ none
  | some c ↦ let (status, s') = kvs_connect c server_pipe_path s in after_connect status s'
]
