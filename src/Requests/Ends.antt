-- ===== src/Requests/Ends.antt =====
-- server/main.c: the loop of a client thread over the requests of a client ends.
use ist_key_value_store.Prelude.{
  ℕ, zero, suc, ◌≤◌, ◌<◌, ◌≡◌, ◌≢◌, [], ◌∷◌, some, Bool, false, arith, length, ◌==◌, Bool-cases,
  Option-cases, inl, inr,
}
use ist_key_value_store.CString.{Str}
use ist_key_value_store.Machine.{M, World}
use ist_key_value_store.Clients.{
  op_code_connect, op_code_disconnect, op_code_subscribe, op_code_unsubscribe,
}
use ist_key_value_store.Clients.Session.{kvs_disconnect}
use ist_key_value_store.Kvs.{key_message_size}
use ist_key_value_store.Parser.Progress.{length-drop-le}
use ist_key_value_store.Requests.{
  read_key, drop_client, serve_subscribe, serve_unsubscribe, manage_request, out_of_fuel,
  serve_requests, and_rest,
}

read_key-le : (input : Str) → length (read_key input).1 ≤ length input
unfolding read_key
read_key-le input = ground (arith, length-drop-le key_message_size input)

and_rest-rest :
    (rest : Str) (m : M ℕ) (w : World) (r : (ℕ × Str) × World)
    → and_rest rest m w ≡ some r
    → r.0.1 ≡ rest
and_rest-rest rest m w r e = elim (Option-cases (m w)) [
  | inl fails ↦ ground arith
  | inr (status, done) ↦ ground arith
]

-- A request does not give input back.
manage_request-le :
    (late : Bool) (a opcode : ℕ) (input : Str) (w : World) (r : (ℕ × Str) × World)
    → manage_request late a opcode input w ≡ some r
    → length r.0.1 ≤ length input
unfolding manage_request
manage_request-le late a opcode input w r e =
    let key = (read_key input).0 in
    let rest = (read_key input).1 in
    let shorter = read_key-le input in
    elim (Bool-cases (opcode == op_code_connect)) [
      | inl connects ↦ ground arith
      | inr other ↦ elim (Bool-cases (opcode == op_code_disconnect)) [
        | inl leaves ↦
            let same = and_rest-rest input (drop_client false a) w r (rw (other, leaves) at e) in
            rw same (omega arith)
        | inr stays ↦ elim (Bool-cases (opcode == op_code_subscribe)) [
          | inl subscribes ↦
              let same =
                and_rest-rest rest (serve_subscribe late a key) w r
                  (rw (other, stays, subscribes) at e) in
              rw same shorter
          | inr else_case ↦ elim (Bool-cases (opcode == op_code_unsubscribe)) [
            | inl unsubscribes ↦
                let same =
                  and_rest-rest rest (serve_unsubscribe late a key) w r
                    (rw (other, stays, else_case, unsubscribes) at e) in
                rw same shorter
            | inr unknown ↦
                let same =
                  and_rest-rest input (drop_client late a) w r
                    (rw (other, stays, else_case, unknown) at e) in
                rw same (omega arith)
          ]
        ]
      ]
    ]

-- With fuel for one round more than the request pipe has bytes, the loop never runs out of it, whatever the
-- bytes are: the client disconnects, is dropped at the end of its pipe or at a request that fails, or is left
-- by a signal; or a request is undefined behaviour, as the subscription of a key without a bucket is.
pub serve_requests_ends :
    (n : ℕ) (signals : ℕ → Bool × Bool) (a : ℕ) (input : Str) (w w' : World)
    → length input < n
    → serve_requests n signals a input w ≢ some (out_of_fuel, w')
unfolding serve_requests
serve_requests_ends zero signals a input w w' l e = absurd (omega arith)
serve_requests_ends (suc n) signals a [] w w' l e = elim (Bool-cases (signals 0).0) [
  | inl signal ↦ ground arith
  | inr quiet ↦ elim (Option-cases (kvs_disconnect a w)) [
    | inl fails ↦ ground arith
    | inr (r, done) ↦ ground arith
  ]
]
serve_requests_ends (suc n) signals a (opcode ∷ input) w w' l e = elim (Bool-cases (signals 0).0) [
  | inl signal ↦ ground arith
  | inr quiet ↦ elim (Option-cases (manage_request (signals 0).1 a opcode input w)) [
    | inl fails ↦ ground arith
    | inr (((zero, rest), w''), done) ↦
        let shorter = manage_request-le (signals 0).1 a opcode input w ((zero, rest), w'') done in
        let next = λ (i : ℕ). signals (suc i) in
        serve_requests_ends n next a rest w'' w' (omega arith) (ground arith)
    | inr (((suc k, rest), w''), done) ↦ ground arith
  ]
]
