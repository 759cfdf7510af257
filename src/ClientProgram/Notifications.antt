-- ===== src/ClientProgram/Notifications.antt =====
-- client/main.c: the thread that prints the notifications of a client.
pub mod Delivery
pub mod Interleaved
use ist_key_value_store.Prelude.{ℕ, List, [], ◌∷◌, ◌++◌, Option, none, some}
use ist_key_value_store.CString.{Str, c_str}

-- `struct thread_args`
pub record ThreadArgs : Type 0 where
  pub fd_notification_pipe : ℕ
  pub fd_request_pipe : ℕ
  pub fd_response_pipe : ℕ
  pub req_pipe_path : Str
  pub resp_pipe_path : Str
  pub notif_pipe_path : Str

-- What the thread does to the pipes.
pub data PipeCall : Type 0 where
  close : ℕ → PipeCall
  unlink : Str → PipeCall

-- A call that fails is only reported.
unfoldable pub terminate_pipes : ThreadArgs → List PipeCall
terminate_pipes a =
    close a.fd_request_pipe
    ∷ unlink a.req_pipe_path
    ∷ close a.fd_notification_pipe
    ∷ unlink a.notif_pipe_path
    ∷ close a.fd_response_pipe
    ∷ unlink a.resp_pipe_path
    ∷ []

-- What a call of `read_all` leaves in its array: the bytes that it has read, or what was there before if
-- it fails.
abbrev filled : Str → Option Str → Str
filled before none = before
filled before (some field) = field

-- `(key,value)` and the end of the line
abbrev pub notification_line : Str → Str → Str
notification_line key value = b'(' ∷ c_str key ++ (b',' ∷ c_str value ++ (b')' ∷ b'\n' ∷ []))

-- The loop, on what the calls of `read_all` deliver until the pipe is closed, with `key` and `value` in
-- the arrays: what is printed. No signal is handled, so `readError` stays 0.
unfoldable pub print_notifications : Str → Str → List (Option Str) → Str
print_notifications key value [] = []
print_notifications key value (field ∷ []) = []
print_notifications key value (field ∷ field' ∷ fields) =
    let key' = filled key field in
    let value' = filled value field' in
    notification_line key' value' ++ print_notifications key' value' fields

-- What the thread prints, and what it does to the pipes. It ends with `serverDisconnected` set.
unfoldable pub process_notif_thread :
    ThreadArgs → Str → Str → List (Option Str) → Str × List PipeCall
unfolding print_notifications terminate_pipes
process_notif_thread args key value fields =
    (print_notifications key value fields, terminate_pipes args)
