-- ===== src/ClientProgram/Main.antt =====
-- client/main.c: the loop over the commands of a client that is connected.
pub mod Ends
pub mod Lines
use ist_key_value_store.Prelude.{
  ℕ, zero, suc, ◌+◌, List, [], ◌∷◌, ◌++◌, Option, none, some, Bool, true, false, ltb, ◌==◌, ◌||◌,
  if◌then◌else◌,
}
use ist_key_value_store.CString.{Str, codes}
use ist_key_value_store.Parser.{Input}
use ist_key_value_store.ClientProgram.Parser.{
  Command, cmd_disconnect, cmd_subscribe, cmd_unsubscribe, cmd_delay, cmd_empty, cmd_invalid, eoc,
  get_next, parse_list, parse_delay,
}
use ist_key_value_store.ClientProgram.Api.{
  Connection, Api, print, kvs_disconnect, kvs_subscribe, kvs_unsubscribe, join_notifications,
}

-- What the main thread works on: the requests and responses, and the delays that it has waited.
pub record State : Type 0 where
  pub connection : Connection
  pub waits : List ℕ

-- What a command leads to: the next command, the end of `main` with a status, or undefined behaviour in
-- `parse_delay`.
pub data Next : Type 0 where
  proceed : Input → State → Next
  return_with : ℕ → State → Next
  undefined : Next

abbrev pub after : {A : Type 0} → State → A × Connection → State
after s r = record s { connection = r.1 }

-- SUBSCRIBE and UNSUBSCRIBE: a list that is not parsed is an invalid command. A request that fails is
-- only reported.
unfoldable pub run_key : (Str → Api ℕ) → List Str × Input → State → Next
run_key request ([], rest) s = proceed rest s
run_key request (key ∷ keys, rest) s = proceed rest (after s (request key s.connection))

abbrev wait_for : ℕ → State → State
wait_for zero s = s
wait_for (suc n) s = record {
  connection = (print (codes "Waiting...\n") s.connection).1;
  waits = s.waits ++ suc n ∷ [];
}

unfoldable pub run_delay : Option (Option ℕ × Input) → State → Next
run_delay none s = undefined
run_delay (some (none, rest)) s = proceed rest s
run_delay (some (some delay, rest)) s = proceed rest (wait_for delay s)

unfoldable pub run_command : Command → Input → State → Next
unfolding run_key run_delay kvs_disconnect kvs_subscribe kvs_unsubscribe
run_command cmd_disconnect input s =
    let r = kvs_disconnect s.connection in return_with (if r.0 then 1 else 0) (after s r)
run_command cmd_subscribe input s = run_key kvs_subscribe (parse_list 1 input) s
run_command cmd_unsubscribe input s = run_key kvs_unsubscribe (parse_list 1 input) s
run_command cmd_delay input s = run_delay (parse_delay input) s
run_command cmd_invalid input s = proceed input s
run_command cmd_empty input s = proceed input s
run_command eoc input s = proceed input (after s (kvs_disconnect s.connection))

-- Behind the loop.
unfoldable pub server_disconnected : State → State
unfolding join_notifications
server_disconnected s =
    after s (
      join_notifications (print (codes "Client was disconnected by the server. \n") s.connection).1)

-- How `main` ends: with a status, in undefined behaviour, or for lack of fuel, which is not part of the
-- program.
pub data Outcome : Type 0 where
  returned : ℕ → State → Outcome
  stuck : Outcome
  out_of_fuel : Outcome

abbrev pub go_on : (Input → State → Outcome) → Next → Outcome
go_on loop undefined = stuck
go_on loop (return_with status s) = returned status s
go_on loop (proceed rest s) = loop rest s

-- Whether the thread of the notifications was joined, so that it has ended.
abbrev pub is_joined : State → Bool
is_joined s = ltb 0 s.connection.joins

-- The loop, with fuel for `n` rounds. `serverDisconnected` is set by the thread of the notifications when
-- it ends: `gone` has its value in the rounds to come, but once that thread was joined it is set.
unfoldable pub run_client : ℕ → (ℕ → Bool) → Input → State → Outcome
unfolding run_command server_disconnected
run_client zero gone input s = out_of_fuel
run_client (suc n) gone input s =
    let (command, rest) = get_next input in
    if gone 0 || is_joined s
    then returned 0 (server_disconnected s)
    else go_on (run_client n (λ i. gone (suc i))) (run_command command rest s)
