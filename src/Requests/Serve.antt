-- ===== src/Requests/Serve.antt =====
-- server/main.c: a client thread does what the requests in its pipe ask for.
use ist_key_value_store.Prelude.{
  ℕ, zero, suc, ◌<◌, ◌≡◌, ◌≢◌, ◌∙◌, List, [], ◌∷◌, ◌++◌, Bool, false, pos, negsuc, arith, All,
  length, Option-cases, inl, inr,
}
use ist_key_value_store.CString.{Str}
use ist_key_value_store.Machine.{M, World, pure, ◌>>=◌, ◌>>◌}
use ist_key_value_store.Kvs.{key_message_size}
use ist_key_value_store.Clients.{
  op_code_disconnect, op_code_subscribe, op_code_unsubscribe, kvs_subscribe, kvs_unsubscribe,
}
use ist_key_value_store.Clients.Session.{kvs_disconnect}
use ist_key_value_store.Requests.{
  key_message, drop_client, serve_subscribe, serve_unsubscribe, manage_request, Session, served,
  the_key, serve_requests,
}
use ist_key_value_store.Requests.Messages.{read_key-key_message}

-- A request with a key, and its message.
pub data Request : Type 0 where
  subscribe unsubscribe : Str → Request

abbrev pub request_key : Request → Str
request_key (subscribe key) = key
request_key (unsubscribe key) = key

abbrev pub message : Request → Str
message (subscribe key) = key_message op_code_subscribe key
message (unsubscribe key) = key_message op_code_unsubscribe key

-- The messages of several requests, and `tail` behind them.
abbrev pub messages : List Request → Str → Str
messages [] tail = tail
messages (r ∷ rs) tail = message r ++ messages rs tail

-- A key without a NUL that fits its message.
abbrev pub Fits : Request → Type 0
Fits r = All (λ c. c ≢ 0) (request_key r) × (length (request_key r) < key_message_size)

-- What the requests ask for: the operations on their keys, one after the other. A subscription that
-- fails is the end of the session, unless a signal has ended it.
abbrev pub session : (ℕ → Bool × Bool) → ℕ → List Request → M Session
session signals a [] = do kvs_disconnect a; pure served
session signals a (subscribe key ∷ rs) = do
  status ← kvs_subscribe key a
  elim status [
    | pos zero ↦ session (λ i. signals (suc i)) a rs
    | pos (suc _) ↦ do _ ← drop_client (signals 0).1 a; pure served
    | negsuc _ ↦ do _ ← drop_client (signals 0).1 a; pure served
  ]
session signals a (unsubscribe key ∷ rs) = do
  _ ← kvs_unsubscribe key a
  session (λ i. signals (suc i)) a rs

-- A round of the loop that no signal ends, on a message with a key.
abbrev operation : Bool → ℕ → Request → M ℕ
operation late a (subscribe key) = serve_subscribe late a (the_key key)
operation late a (unsubscribe key) = serve_unsubscribe late a (the_key key)

bind_and_rest :
    {A B : Type 0} (m : M A) (rest : Str) (f : A × Str → M B) (w : World)
    → ((m >>= λ x. pure (x, rest)) >>= f) w ≡ (m >>= λ x. f (x, rest)) w
bind_and_rest m rest f w = elim (Option-cases (m w)) [
  | inl fails ↦ ground arith
  | inr (r, done) ↦ ground arith
]

-- What the loop does next.
abbrev then_serve : ℕ → (ℕ → Bool × Bool) → ℕ → ℕ × Str → M Session
then_serve n signals a r = elim r.0 [
  | zero ↦ serve_requests n (λ i. signals (suc i)) a r.1
  | suc _ ↦ pure served
]

request_round :
    (n : ℕ) (signals : ℕ → Bool × Bool) (a : ℕ) (r : Request) (rest : Str) (w : World)
    → (signals 0).0 ≡ false
    → Fits r
    → serve_requests (suc n) signals a (message r ++ rest) w
      ≡ (operation (signals 0).1 a r >>= λ status. then_serve n signals a (status, rest)) w
unfolding serve_requests manage_request key_message
request_round n signals a (subscribe key) rest w quiet fits =
    rw (quiet, read_key-key_message op_code_subscribe key rest fits.0 fits.1)
      (bind_and_rest (serve_subscribe (signals 0).1 a (the_key key)) rest (then_serve n signals a)
        w)
request_round n signals a (unsubscribe key) rest w quiet fits =
    rw (quiet, read_key-key_message op_code_unsubscribe key rest fits.0 fits.1)
      (bind_and_rest (serve_unsubscribe (signals 0).1 a (the_key key)) rest (then_serve n signals a)
        w)

-- A client thread that no signal interrupts performs the requests in its pipe, in their order, up to the
-- one that disconnects: for keys of 40 bytes at most without a NUL, and enough fuel.
pub serve_requests-messages :
    (n : ℕ) (signals : ℕ → Bool × Bool) (a : ℕ) (rs : List Request) (w : World)
    → length rs < n
    → ((i : ℕ) → (signals i).0 ≡ false)
    → All Fits rs
    → serve_requests n signals a (messages rs (op_code_disconnect ∷ [])) w ≡ session signals a rs w
unfolding drop_client serve_subscribe serve_unsubscribe
serve_requests-messages zero signals a rs w l quiet fits = absurd (omega arith)
serve_requests-messages (suc n) signals a [] w l quiet fits =
    unfold serve_requests manage_request in
    elim (Option-cases (kvs_disconnect a w)) [
      | inl fails ↦ rw (quiet 0) (ground arith)
      | inr (r, done) ↦ rw (quiet 0) (ground arith)
    ]
serve_requests-messages (suc n) signals a (subscribe key ∷ rs) w l quiet fits =
    let rest = messages rs (op_code_disconnect ∷ []) in
    let round = request_round n signals a (subscribe key) rest w (quiet 0) fits.0 in
    round ∙ elim (Option-cases (kvs_subscribe key a w)) [
      | inl fails ↦ ground arith
      | inr ((pos zero, w'), done) ↦ ground (
        arith,
        serve_requests-messages n (λ (i : ℕ). signals (suc i)) a rs w' (omega arith)
            (λ i. quiet (suc i)) fits.1,
      )
      | inr ((pos (suc _), w'), done) ↦ ground arith
      | inr ((negsuc _, w'), done) ↦ ground arith
    ]
serve_requests-messages (suc n) signals a (unsubscribe key ∷ rs) w l quiet fits =
    let rest = messages rs (op_code_disconnect ∷ []) in
    let round = request_round n signals a (unsubscribe key) rest w (quiet 0) fits.0 in
    round ∙ elim (Option-cases (kvs_unsubscribe key a w)) [
      | inl fails ↦ ground arith
      | inr ((status, w'), done) ↦ ground (
        arith,
        serve_requests-messages n (λ (i : ℕ). signals (suc i)) a rs w' (omega arith)
            (λ i. quiet (suc i)) fits.1,
      )
    ]
