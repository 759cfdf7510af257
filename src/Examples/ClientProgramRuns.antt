-- ===== src/Examples/ClientProgramRuns.antt =====
-- Runs of the program of a client.
use ist_key_value_store.Prelude.{
  ltb, length, ℕ, ◌≡◌, ◌≢◌, ◌↔◌, refl, [], ◌∷◌, none, some, Bool, true, false, List, arith,
  if◌then◌else◌,
}
use mathlib.Core.Option.{map}
use ist_key_value_store.CString.{Str, codes, str_eq, strcmp, strlen}
use ist_key_value_store.Machine.{World}
use ist_key_value_store.Table.{first_byte}
use ist_key_value_store.Operations.{compare_pairs, kvs_write}
use ist_key_value_store.Operations.Sort.{qsort}
use ist_key_value_store.Connections.{ClientInfo}
use ist_key_value_store.Parser.RoundTrip.{IsToken}
use ist_key_value_store.Requests.{serve_requests, read_connect_message, out_of_fuel}
use ist_key_value_store.Requests.Serve.{Request, subscribe, unsubscribe, session}
use ist_key_value_store.Requests.Ends.{serve_requests_ends}
use ist_key_value_store.ClientProgram.Parser.{cmd_disconnect}
use ist_key_value_store.ClientProgram.Parser.RoundTrip.{command_text}
use ist_key_value_store.ClientProgram.Api.{Connection}
use ist_key_value_store.ClientProgram.Notifications.{print_notifications}
use ist_key_value_store.ClientProgram.Notifications.Delivery.{
  received, told, FitsKey, kvs_write-told,
}
use ist_key_value_store.ClientProgram.Connect.{
  Setup, uninitialised, pipe_paths, kvs_connect, connect, connect_through, any_unlink_fails,
  make_fifos, write_connect_message, open_pipes, read_connect_response, after_connect, pipe_path,
}
use ist_key_value_store.ClientProgram.Connect.Branches.{
  CanConnect, kvs_connect-CanConnect, connect_faults, connect_closes_twice,
}
use ist_key_value_store.ClientProgram.Connect.Paths.{paths_of, pipe_paths-short, connect_is_read}
use ist_key_value_store.ClientProgram.Main
use ist_key_value_store.ClientProgram.Main.{State, returned, run_client}
use ist_key_value_store.ClientProgram.Main.Ends.{run_client_ends, joins-run_client-nothing}
use ist_key_value_store.ClientProgram.Main.Lines.{lines, client_to_server}
use ist_key_value_store.Examples.Fixtures.{
  ant, bee, one, two, two_pairs, two_pairs-IsWellFormed, two_pairs-AllOnce, world, world-IsReady,
}

abbrev fresh : Connection
fresh = record { writes = []; requests = []; responses = codes "3132334142"; out = []; joins = 0 }

abbrev start : State
start = record { connection = fresh; waits = [] }

abbrev two_requests : List Request
two_requests = subscribe ant ∷ unsubscribe bee ∷ []

abbrev ant_token : IsToken ant
ant_token = record { plain = ground arith; short = omega arith }

abbrev bee_token : IsToken bee
bee_token = record { plain = ground arith; short = omega arith }

client_to_server_example :
    (status : ℕ) × (s' : State) × (run_client 3
        (λ _. false)
        (lines two_requests (command_text cmd_disconnect))
        start
      ≡ returned status s')
    × (serve_requests 3 (λ _. (false, false)) 0 s'.connection.requests world
        ≡ session (λ _. (false, false)) 0 two_requests world)
client_to_server_example =
    client_to_server 3 3 (λ _. (false, false)) 0 two_requests start world (omega arith)
      (omega arith) (λ _. refl) (ant_token, (bee_token, tt))
      (record { writes = refl; joins = refl }) refl

ant_fits : FitsKey ant
ant_fits = (ground arith, omega arith)

bee_fits : FitsKey bee
bee_fits = (ground arith, omega arith)

one_fits : FitsKey one
one_fits = (ground arith, omega arith)

two_fits : FitsKey two
two_fits = (ground arith, omega arith)

kvs_write-told_example :
    (w' : World) × (kvs_write ((bee, one) ∷ (ant, two) ∷ []) world ≡ some (0, w'))
    × (print_notifications [] [] (received (b'?' ∷ []) 7 w'.sent)
        ≡ told 7 two_pairs (qsort compare_pairs ((bee, one) ∷ (ant, two) ∷ [])))
unfolding first_byte
kvs_write-told_example =
    kvs_write-told world two_pairs ((bee, one) ∷ (ant, two) ∷ []) 7 (b'?' ∷ []) [] [] world-IsReady
      refl refl refl two_pairs-IsWellFormed two_pairs-AllOnce (refl, (refl, tt))
      ((bee_fits, one_fits), ((ant_fits, two_fits), tt))

run_client_ends_example :
    run_client 5 (λ _. false) (b'D' ∷ b'\n' ∷ b'S' ∷ []) start ≢ Main.out_of_fuel
run_client_ends_example =
    run_client_ends 5 (λ _. false) (b'D' ∷ b'\n' ∷ b'S' ∷ []) start (omega arith)

joins-run_client-nothing_example :
    (s' : State) × (run_client 2 (λ _. false) [] start ≡ returned 0 s') × (s'.connection.joins ≡ 2)
joins-run_client-nothing_example = joins-run_client-nothing 0 (λ _. false) start refl refl

serve_requests_ends_example :
    serve_requests 3 (λ _. (false, false)) 0 (b'3' ∷ b'a' ∷ []) world ≢ some (out_of_fuel, world)
serve_requests_ends_example =
    serve_requests_ends 3 (λ _. (false, false)) 0 (b'3' ∷ b'a' ∷ []) world world (omega arith)

-- A system in which every call works, with the register pipe open as 3.
abbrev works : Setup
works = record {
  access_fails = λ _. false;
  unlink_fails = λ _. false;
  mkfifo_fails = λ _. false;
  opens = λ _. some 3;
  write_fails = false;
  close_fails = λ _. false;
  fifos = [];
  closed = [];
  messages = [];
  fd_server_pipe = uninitialised;
  fd_notification_pipe = uninitialised;
  fd_request_pipe = uninitialised;
  fd_response_pipe = uninitialised;
  connection = fresh;
}

abbrev paths : ClientInfo
paths = paths_of ant

kvs_connect-CanConnect_example : ((kvs_connect paths one works).0 ≡ 0) ↔ CanConnect paths one works
kvs_connect-CanConnect_example = kvs_connect-CanConnect paths one works

works_is_connected : connect ant one works ≡ some (true, (kvs_connect paths one works).1)
unfolding connect after_connect kvs_connect connect_through any_unlink_fails make_fifos
    write_connect_message open_pipes read_connect_response pipe_paths pipe_path strlen
works_is_connected = refl

connect_is_read_example :
    read_connect_message (kvs_connect paths one works).1.messages
    ≡ (if ltb (length ant) 30 then some (some paths, []) else none)
connect_is_read_example =
    connect_is_read ant one works (kvs_connect paths one works).1 paths (ground arith) refl
      (pipe_paths-short ant (omega arith)) works_is_connected

ant_paths : pipe_paths ant ≢ none
ant_paths e = let short = pipe_paths-short ant (omega arith) in cc

connect_faults_example : (connect ant one works ≡ none) ↔ (works.access_fails one ≡ true)
connect_faults_example = connect_faults ant one works ant_paths refl

-- The notification pipe of `ant` cannot be opened.
abbrev no_notifications : Setup
no_notifications = record works {
  opens = λ path. if str_eq path paths.notif_fifo then none else some 3;
}

connect_closes_twice_example :
    map {B = Bool × List ℕ} (λ r. (r.0, r.1.closed)) (connect ant one no_notifications)
    ≡ some (false, 3 ∷ 3 ∷ [])
unfolding str_eq strcmp
connect_closes_twice_example =
    connect_closes_twice ant one paths 3 no_notifications (pipe_paths-short ant (omega arith)) refl
      refl (refl, refl, refl) (refl, refl, refl) refl refl

abbrev long : Str
long = codes "a_client_identifier_of_32_bytes_"

long_is_connected : connect long one works ≡ some (true, (kvs_connect (paths_of long) one works).1)
unfolding connect after_connect kvs_connect connect_through any_unlink_fails make_fifos
    write_connect_message open_pipes read_connect_response pipe_paths pipe_path strlen
long_is_connected = refl

-- A longer identifier.
long_is_not_read : read_connect_message (kvs_connect (paths_of long) one works).1.messages ≡ none
long_is_not_read =
    connect_is_read long one works (kvs_connect (paths_of long) one works).1 (paths_of long)
      (ground arith) refl (pipe_paths-short long (omega arith)) long_is_connected
