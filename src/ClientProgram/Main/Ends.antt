-- ===== src/ClientProgram/Main/Ends.antt =====
-- client/main.c: the loop over the commands ends. Each round takes a byte of the input, or is the last
-- but one.
use ist_key_value_store.Prelude.{
  ℕ, zero, suc, ◌+◌, ◌<◌, ◌≤◌, ◌≡◌, ◌≢◌, refl, List, [], ◌∷◌, Option, none, some, Bool, true, arith,
  length, false, Bool-cases, inl, inr, ltb, ◌||◌, ◌∙◌,
}
use ist_key_value_store.CString.{Str}
use ist_key_value_store.Parser.{Input}
use ist_key_value_store.ClientProgram.Parser.{
  Command, cmd_disconnect, cmd_subscribe, cmd_unsubscribe, cmd_delay, cmd_empty, cmd_invalid, eoc,
  get_next, parse_list, parse_delay,
}
use ist_key_value_store.ClientProgram.Parser.Progress.{get_next-lt, parse_list-le, parse_delay-le}
use ist_key_value_store.ClientProgram.Api.{
  Api, Connection, kvs_subscribe, kvs_unsubscribe, kvs_disconnect, write_request,
  read_server_response, read_response, join_notifications,
}
use ist_key_value_store.ClientProgram.Main.{
  State, Next, proceed, return_with, undefined, run_key, run_delay, run_command, Outcome, returned,
  out_of_fuel, run_client, go_on, is_joined, server_disconnected,
}

-- What is left of the input where the loop goes on.
abbrev TakesNoMore : Input → Next → Type 0
TakesNoMore input (proceed rest s) = length rest ≤ length input
TakesNoMore input (return_with _ _) = Unit
TakesNoMore input undefined = Unit

run_key-TakesNoMore :
    (request : Str → Api ℕ) (r : List Str × Input) (s : State)
    → TakesNoMore r.1 (run_key request r s)
unfolding run_key
run_key-TakesNoMore request ([], rest) s = omega arith
run_key-TakesNoMore request (key ∷ keys, rest) s = omega arith

run_delay-TakesNoMore :
    (o : Option (Option ℕ × Input)) (input : Input) (s : State)
    → ((r : Option ℕ × Input) → o ≡ some r → length r.1 ≤ length input)
    → TakesNoMore input (run_delay o s)
unfolding run_delay
run_delay-TakesNoMore none input s h = tt
run_delay-TakesNoMore (some (none, rest)) input s h = h _ refl
run_delay-TakesNoMore (some (some zero, rest)) input s h = h _ refl
run_delay-TakesNoMore (some (some (suc n), rest)) input s h = h _ refl

weaken :
    (small big : Input) (next : Next)
    → length small ≤ length big
    → TakesNoMore small next
    → TakesNoMore big next
weaken small big (proceed rest s) l h = omega (arith, l, h)
weaken small big (return_with _ _) l h = tt
weaken small big undefined l h = tt

run_command-TakesNoMore :
    (command : Command) (input : Input) (s : State)
    → TakesNoMore input (run_command command input s)
unfolding run_command
run_command-TakesNoMore cmd_disconnect input s = tt
run_command-TakesNoMore cmd_subscribe input s =
    let r = parse_list 1 input in
    weaken r.1 input _ (parse_list-le 1 input) (run_key-TakesNoMore kvs_subscribe r s)
run_command-TakesNoMore cmd_unsubscribe input s =
    let r = parse_list 1 input in
    weaken r.1 input _ (parse_list-le 1 input) (run_key-TakesNoMore kvs_unsubscribe r s)
run_command-TakesNoMore cmd_delay input s =
    run_delay-TakesNoMore (parse_delay input) input s (parse_delay-le input)
run_command-TakesNoMore cmd_empty input s = omega arith
run_command-TakesNoMore cmd_invalid input s = omega arith
run_command-TakesNoMore eoc input s = omega arith

joins-kvs_disconnect : (c : Connection) → (kvs_disconnect c).1.joins ≡ c.joins + 1
unfolding kvs_disconnect write_request read_server_response read_response join_notifications
joins-kvs_disconnect c = ground arith

-- Once the thread of the notifications was joined, the loop is left at its next test.
leaves :
    (n : ℕ) (gone : ℕ → Bool) (input : Input) (s : State)
    → ltb 0 s.connection.joins ≡ true
    → run_client (suc n) gone input s ≡ returned 0 (server_disconnected s)
unfolding run_client
leaves n gone input s joined = elim (Bool-cases (gone 0)) [
  | inl now ↦ rw now refl
  | inr later ↦ rw (later, joined) refl
]

-- A round of the loop that is not left.
pub stays :
    (n : ℕ) (gone : ℕ → Bool) (input : Input) (s : State)
    → gone 0 ≡ false
    → s.connection.joins ≡ 0
    → run_client (suc n) gone input s
      ≡ go_on
          (run_client n (λ i. gone (suc i)))
          (run_command (get_next input).0 (get_next input).1 s)
unfolding run_client
stays n gone input s more fresh =
    let unjoined : is_joined s ≡ false = ground arith in rw (more, unjoined) refl

-- At the end of the input the server is told, the thread of the notifications is joined, and the loop is
-- left.
pub run_client-nothing :
    (n : ℕ) (gone : ℕ → Bool) (s : State)
    → gone 0 ≡ false
    → s.connection.joins ≡ 0
    → run_client (suc (suc n)) gone [] s
      ≡ returned 0 (server_disconnected (record s { connection = (kvs_disconnect s.connection).1 }))
unfolding run_command get_next
run_client-nothing n gone s more fresh =
    let s' = record s { connection = (kvs_disconnect s.connection).1 } in
    let next = λ (i : ℕ). gone (suc i) in
    stays (suc n) gone [] s more fresh
    ∙ leaves n next [] s' (ground (arith, joins-kvs_disconnect s.connection))

-- A client that reaches the end of its input, with the server still there, joins the thread of its
-- notifications twice: in `kvs_disconnect`, and again behind the loop.
pub joins-run_client-nothing :
    (n : ℕ) (gone : ℕ → Bool) (s : State)
    → gone 0 ≡ false
    → s.connection.joins ≡ 0
    → (s' : State) × (run_client (suc (suc n)) gone [] s ≡ returned 0 s')
      × (s'.connection.joins ≡ 2)
unfolding server_disconnected join_notifications
joins-run_client-nothing n gone s more fresh = (
  server_disconnected (record s { connection = (kvs_disconnect s.connection).1 }),
  run_client-nothing n gone s more fresh,
  ground (arith, joins-kvs_disconnect s.connection),
)

go_on_ends :
    (loop : Input → State → Outcome) (next : Next) (input : Input)
    → ((rest : Input) (s : State) → length rest ≤ length input → loop rest s ≢ out_of_fuel)
    → TakesNoMore input next
    → go_on loop next ≢ out_of_fuel
go_on_ends loop undefined input ih h e = cc
go_on_ends loop (return_with status s) input ih h e = cc
go_on_ends loop (proceed rest s) input ih h e = ih rest s h e

-- With fuel for two rounds more than the input has bytes, the loop never runs out of it, whenever the
-- server ends the session: the client leaves, or `parse_delay` is undefined behaviour.
pub run_client_ends :
    (n : ℕ) (gone : ℕ → Bool) (input : Input) (s : State)
    → length input + 1 < n
    → run_client n gone input s ≢ out_of_fuel
unfolding run_client
run_client_ends zero gone input s lt e = absurd (omega arith)
run_client_ends (suc zero) gone input s lt e = absurd (omega arith)
run_client_ends (suc (suc n)) gone [] s lt e = elim (Bool-cases (gone 0 || is_joined s)) [
  | inl leaves ↦ ground arith
  | inr stays ↦ let done = run_client-nothing n gone s (ground arith) (ground arith) in cc
]
run_client_ends (suc (suc n)) gone (ch ∷ input) s lt e =
    let r = get_next (ch ∷ input) in
    let next = λ (i : ℕ). gone (suc i) in
    elim (Bool-cases (gone 0 || is_joined s)) [
      | inl leaves ↦ ground arith
      | inr stays ↦
          let e' : go_on (run_client (suc n) next) (run_command r.0 r.1 s) ≡ out_of_fuel =
            rw stays at e in
          go_on_ends (run_client (suc n) next) (run_command r.0 r.1 s) r.1
            (λ rest s' l.
              run_client_ends (suc n) next rest s' (omega (arith, l, lt, get_next-lt ch input)))
            (run_command-TakesNoMore r.0 r.1 s) e'
    ]
