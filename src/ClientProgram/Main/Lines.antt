-- ===== src/ClientProgram/Main/Lines.antt =====
-- client/main.c: what the lines of a client make it send.
use ist_key_value_store.Prelude.{
  ℕ, zero, suc, ◌<◌, ◌≡◌, ap, ◌∙◌, refl, List, [], ◌∷◌, ◌++◌, append_assoc, Bool, false, arith, All,
  All-imp, length, if◌then◌else◌,
}
use ist_key_value_store.Machine.{World}
use ist_key_value_store.Parser.{Input}
use ist_key_value_store.Parser.RoundTrip.{IsToken, keys_text}
use ist_key_value_store.Clients.{op_code_disconnect, op_code_subscribe, op_code_unsubscribe}
use ist_key_value_store.Kvs.{key_message_size}
use ist_key_value_store.Requests.{key_message, fill_with_nulls, serve_requests}
use ist_key_value_store.Requests.Serve.{
  Request, subscribe, unsubscribe, request_key, message, messages, Fits, session,
  serve_requests-messages,
}
use ist_key_value_store.ClientProgram.Parser.{
  Command, cmd_disconnect, cmd_subscribe, cmd_unsubscribe,
}
use ist_key_value_store.ClientProgram.Parser.RoundTrip.{
  command_text, get_next-command_text, parse_list-keys_text,
}
use ist_key_value_store.ClientProgram.Api.{
  Connection, kvs_subscribe, kvs_unsubscribe, kvs_disconnect, write_request, write_correct_size,
  read_server_response, read_response, join_notifications,
}
use ist_key_value_store.ClientProgram.Main.{State, returned, run_client, run_command, run_key}
use ist_key_value_store.ClientProgram.Main.Ends.{stays}

-- The command of a request and its line: `SUBSCRIBE [key]` or `UNSUBSCRIBE [key]`.
abbrev pub request_command : Request → Command
request_command (subscribe _) = cmd_subscribe
request_command (unsubscribe _) = cmd_unsubscribe

abbrev pub lines : List Request → Input → Input
lines [] tail = tail
lines (r ∷ rs) tail =
    command_text (request_command r)
    ++ (b'[' ∷ keys_text (request_key r ∷ []) (b'\n' ∷ lines rs tail))

-- A connection on which every write works and the thread of the notifications was not joined.
pub record IsOpen (c : Connection) : Type 0 where
  pub writes : c.writes ≡ []
  pub joins : c.joins ≡ 0

-- What a request does to the connection.
abbrev perform : Request → Connection → Connection
perform (subscribe key) c = (kvs_subscribe key c).1
perform (unsubscribe key) c = (kvs_unsubscribe key c).1

perform-IsOpen : (r : Request) (c : Connection) → IsOpen c → IsOpen (perform r c)
unfolding kvs_subscribe kvs_unsubscribe write_request write_correct_size read_server_response
    read_response
perform-IsOpen (subscribe key) c h = record {
  writes = ground (arith, h.writes);
  joins = ground (arith, h.joins, h.writes);
}
perform-IsOpen (unsubscribe key) c h = record {
  writes = ground (arith, h.writes);
  joins = ground (arith, h.joins, h.writes);
}

requests-perform :
    (r : Request) (c : Connection) → IsOpen c → (perform r c).requests ≡ c.requests ++ message r
unfolding kvs_subscribe kvs_unsubscribe write_request write_correct_size read_server_response
    read_response key_message
requests-perform (subscribe key) c h = ground (
  arith,
  h.writes,
  append_assoc c.requests (op_code_subscribe ∷ []) (fill_with_nulls key key_message_size),
)
requests-perform (unsubscribe key) c h = ground (
  arith,
  h.writes,
  append_assoc c.requests (op_code_unsubscribe ∷ []) (fill_with_nulls key key_message_size),
)

-- One line is run as its request.
line_round :
    (n : ℕ) (gone : ℕ → Bool) (r : Request) (rest : Input) (s : State)
    → gone 0 ≡ false
    → IsOpen s.connection
    → IsToken (request_key r)
    → run_client (suc n) gone (lines (r ∷ []) rest) s
      ≡ run_client n (λ i. gone (suc i)) rest (record s { connection = perform r s.connection })
unfolding run_command run_key keys_text
line_round n gone (subscribe key) rest s more h token =
    let arguments = b'[' ∷ keys_text (key ∷ []) (b'\n' ∷ rest) in
    stays n gone (command_text cmd_subscribe ++ arguments) s more h.joins
    ∙ rw
        (
          get_next-command_text cmd_subscribe arguments (λ e. absurd cc),
          parse_list-keys_text 1 key [] rest (omega arith) (token, tt),
        )
        refl
line_round n gone (unsubscribe key) rest s more h token =
    let arguments = b'[' ∷ keys_text (key ∷ []) (b'\n' ∷ rest) in
    stays n gone (command_text cmd_unsubscribe ++ arguments) s more h.joins
    ∙ rw
        (
          get_next-command_text cmd_unsubscribe arguments (λ e. absurd cc),
          parse_list-keys_text 1 key [] rest (omega arith) (token, tt),
        )
        refl

-- The state in which a client with these requests and then a DISCONNECT leaves.
abbrev pub performed : List Request → State → State
performed [] s = record s { connection = (kvs_disconnect s.connection).1 }
performed (r ∷ rs) s = performed rs (record s { connection = perform r s.connection })

-- The status with which it leaves.
abbrev pub last_status : List Request → State → ℕ
last_status [] s = if (kvs_disconnect s.connection).0 then 1 else 0
last_status (r ∷ rs) s = last_status rs (record s { connection = perform r s.connection })

run_client-lines :
    (n : ℕ) (gone : ℕ → Bool) (rs : List Request) (s : State)
    → length rs < n
    → ((i : ℕ) → gone i ≡ false)
    → All (λ r. IsToken (request_key r)) rs
    → IsOpen s.connection
    → run_client n gone (lines rs (command_text cmd_disconnect)) s
      ≡ returned (last_status rs s) (performed rs s)
unfolding run_command
run_client-lines zero gone rs s l more tokens h = absurd (omega arith)
run_client-lines (suc n) gone [] s l more tokens h =
    stays n gone (command_text cmd_disconnect) s (more 0) h.joins
    ∙ rw (get_next-command_text cmd_disconnect [] (λ e. absurd cc)) refl
run_client-lines (suc n) gone (r ∷ rs) s l more tokens h =
    line_round n gone r (lines rs (command_text cmd_disconnect)) s (more 0) h tokens.0
    ∙ run_client-lines n (λ i. gone (suc i)) rs (record s { connection = perform r s.connection })
        (omega arith) (λ i. more (suc i)) tokens.1 (perform-IsOpen r s.connection h)

requests-performed :
    (rs : List Request) (s : State)
    → IsOpen s.connection
    → (performed rs s).connection.requests
      ≡ s.connection.requests ++ messages rs (op_code_disconnect ∷ [])
requests-performed [] s h =
    unfold kvs_disconnect write_request read_server_response read_response join_notifications in
    ground (arith, h.writes)
requests-performed (r ∷ rs) s h =
    let s' = record s { connection = perform r s.connection } in
    requests-performed rs s' (perform-IsOpen r s.connection h)
    ∙ (ap (λ t. t ++ messages rs (op_code_disconnect ∷ [])) (requests-perform r s.connection h)
        ∙ append_assoc s.connection.requests (message r) (messages rs (op_code_disconnect ∷ [])))

-- Keys that can be typed fit their messages.
fit : (rs : List Request) → All (λ r. IsToken (request_key r)) rs → All Fits rs
fit rs tokens =
    All-imp rs (λ r t. (All-imp (request_key r) (λ c p. p.0) t.plain, omega (arith, t.short)))
      tokens

-- What a client types is done by the server: a client whose lines are SUBSCRIBE and UNSUBSCRIBE of one key
-- each, then DISCONNECT, leaves with what the server must do in its request pipe, and a client thread of
-- the server that reads this pipe performs these subscriptions and unsubscriptions in their order. The
-- keys hold no delimiter and are shorter than 40 bytes, no write of the client fails, its pipe was empty,
-- and no signal comes.
pub client_to_server :
    (n m : ℕ) (signals : ℕ → Bool × Bool) (a : ℕ) (rs : List Request) (s : State) (w : World)
    → length rs < n
    → length rs < m
    → ((i : ℕ) → (signals i).0 ≡ false)
    → All (λ r. IsToken (request_key r)) rs
    → IsOpen s.connection
    → s.connection.requests ≡ []
    → (status : ℕ) × (s' : State) × (run_client n
          (λ _. false)
          (lines rs (command_text cmd_disconnect))
          s
        ≡ returned status s')
      × (serve_requests m signals a s'.connection.requests w ≡ session signals a rs w)
client_to_server n m signals a rs s w l l' quiet tokens h fresh = (
  last_status rs s,
  performed rs s,
  run_client-lines n (λ _. false) rs s l (λ _. refl) tokens h,
  rw (requests-performed rs s h, fresh)
      (serve_requests-messages m signals a rs w l' quiet (fit rs tokens)),
)
