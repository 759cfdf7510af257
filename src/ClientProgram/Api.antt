-- ===== src/ClientProgram/Api.antt =====
-- client/api.c: the requests of a client once it is connected.
use ist_key_value_store.Prelude.{
  ℕ, ◌+◌, List, [], ◌∷◌, ◌++◌, Option, none, some, Bool, true, false, ◌==◌, ◌||◌, not,
  if◌then◌else◌,
}
use ist_key_value_store.CString.{Str, codes}
use ist_key_value_store.Kvs.{key_message_size}
use ist_key_value_store.Clients.{
  op_code_connect, op_code_disconnect, op_code_subscribe, op_code_unsubscribe,
}
use ist_key_value_store.Requests.{fill_with_nulls}

-- What the main thread of the client works on.
pub record Connection : Type 0 where
  -- whether the next calls of `write_all` to the request pipe succeed; past the end all do
  pub writes : List Bool
  -- what was written to the request pipe
  pub requests : Str
  -- what the response pipe still delivers, before its end
  pub responses : Str
  -- the standard output
  pub out : Str
  -- how often the thread of the notifications was joined
  pub joins : ℕ

abbrev pub Api : Type 0 → Type 0
Api A = Connection → A × Connection

abbrev pub pure : {A : Type 0} → A → Api A
pure a c = (a, c)

infixl 5 ◌>>=◌ ◌>>◌
abbrev pub ◌>>=◌ : {A B : Type 0} → Api A → (A → Api B) → Api B
◌>>=◌ m f c = let (a, c') = m c in f a c'

abbrev pub ◌>>◌ : {B : Type 0} → Api (Unit {0}) → Api B → Api B
m >> k = m >>= λ _. k

-- `fprintf(stdout, …)`
abbrev pub print : Str → Api (Unit {0})
print text c = (tt, record c { out = c.out ++ text })

-- `write_all` to the request pipe: whether it worked. One that fails has written nothing: a pipe takes so
-- short a message as a whole.
unfoldable pub write_request : Str → Api Bool
write_request message c = elim c.writes [
  | [] ↦ (true, record c { requests = c.requests ++ message })
  | true ∷ writes ↦ (true, record c { writes = writes; requests = c.requests ++ message })
  | false ∷ writes ↦ (false, record c { writes = writes })
]

-- `read_all` of one byte from the response pipe; `none` at its end.
unfoldable pub read_response : Api (Option ℕ)
read_response c = elim c.responses [
  | [] ↦ (none, c)
  | ch ∷ responses ↦ (some ch, record c { responses = responses })
]

-- `pthread_join` of the thread of the notifications. It returns when that thread has ended.
unfoldable pub join_notifications : Api (Unit {0})
join_notifications c = (tt, record c { joins = c.joins + 1 })

unfoldable pub write_correct_size : Str → ℕ → Api Bool
unfolding write_request fill_with_nulls
write_correct_size message size = write_request (fill_with_nulls message size)

-- `opName`
abbrev pub operation_name : ℕ → Str
operation_name opcode =
    if opcode == op_code_connect
    then codes "connect"
    else if opcode == op_code_disconnect
    then codes "disconnect"
    else if opcode == op_code_subscribe
    then codes "subscribe"
    else if opcode == op_code_unsubscribe
    then codes "unsubscribe"
    else codes "unknown"

-- What is printed of a response.
abbrev pub response_line : ℕ → ℕ → Str
response_line opcode result =
    codes "Server returned "
    ++ (result ∷ codes " for operation: " ++ (operation_name opcode ++ b'\n' ∷ []))

-- Whether it fails.
unfoldable pub read_server_response : ℕ → Api Bool
unfolding read_response
read_server_response expected_op_code = do
  opcode ← read_response
  elim opcode [
    | none ↦ pure true
    | some code ↦ elim (code == expected_op_code) [
      | false ↦ pure true
      | true ↦ do
        result ← read_response
        elim result [
          | none ↦ pure true
          | some ch ↦ do print (response_line expected_op_code ch); pure false
        ]
    ]
  ]

-- Whether anything failed. The thread of the notifications is joined in any case.
unfoldable pub kvs_disconnect : Api Bool
unfolding write_request read_server_response join_notifications
kvs_disconnect = do
  written ← write_request (op_code_disconnect ∷ [])
  failed ← read_server_response op_code_disconnect
  join_notifications
  pure (not written || failed)

-- 1 once the key has been written, whatever the response; 0 if it could not be.
unfoldable pub kvs_subscribe : Str → Api ℕ
unfolding write_request write_correct_size read_server_response
kvs_subscribe key = do
  opcode_written ← write_request (op_code_subscribe ∷ [])
  elim opcode_written [
    | false ↦ pure 0
    | true ↦ do
      key_written ← write_correct_size key key_message_size
      elim key_written [
        | false ↦ pure 0
        | true ↦ do _ ← read_server_response op_code_subscribe; pure 1
      ]
  ]

-- 0 once the key has been written, whatever the response; 1 if it could not be.
unfoldable pub kvs_unsubscribe : Str → Api ℕ
unfolding write_request write_correct_size read_server_response
kvs_unsubscribe key = do
  opcode_written ← write_request (op_code_unsubscribe ∷ [])
  elim opcode_written [
    | false ↦ pure 1
    | true ↦ do
      key_written ← write_correct_size key key_message_size
      elim key_written [
        | false ↦ pure 1
        | true ↦ do _ ← read_server_response op_code_unsubscribe; pure 0
      ]
  ]
