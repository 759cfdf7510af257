-- ===== src/Jobs.antt =====
-- proj_p2/src/server/main.c: the commands of one job file, in the loop of `process_thread`. `none` is
-- undefined behaviour, or a wait for the global lock that never ends.
pub mod Lines
pub mod Fuel
pub mod Directory
use ist_key_value_store.Prelude.{
  ℕ, zero, suc, ◌+◌, ◌-◌, List, [], ◌∷◌, ◌++◌, Option, none, some, Bool, true, false, ℤ, pos,
  negsuc, ◌==◌, length, ltb, if◌then◌else◌,
}
use ist_key_value_store.CString.{Str}
use ist_key_value_store.Machine.{M, World, write_out}
use ist_key_value_store.Operations.{kvs_write, kvs_read, kvs_delete, max_write_size}
use ist_key_value_store.Dump.{kvs_show, kvs_backup}
use ist_key_value_store.Parser.{
  Input, Command, cmd_write, cmd_read, cmd_delete, cmd_show, cmd_wait, cmd_backup, cmd_help,
  cmd_empty, cmd_invalid, eoc, get_next, parse_write, parse_read_delete,
}
use ist_key_value_store.Parser.Number.{Wait, parse_wait}

pub record JobState : Type 0 where
  pub world : World
  -- whether `globalHashLock` can be read-locked, and how often this thread holds it between commands
  pub global_error : Bool
  pub global_held : ℕ
  -- how many more backups may be started without a wait, shared by all threads
  pub backup_counter : ℕ
  -- the child processes of all threads that nobody has waited for
  pub children : ℕ
  -- the number of the next backup of this file
  pub file_backups : ℕ
  -- the backups that were made, with their numbers and contents, and the delays that were waited
  pub backups : List (ℕ × Str)
  pub waits : List ℕ

-- `rdlock(&globalHashLock) || operation || unlock(&globalHashLock)`: an operation that fails leaves the
-- global lock taken.
unfoldable pub guarded : M ℕ → JobState → Option JobState
guarded operation s = if s.global_error then some s else elim (operation s.world) [
  | none ↦ none
  | some (status, w) ↦ some (record s {
    world = w;
    global_held = if status == 0 then s.global_held else s.global_held + 1;
  })
]

abbrev pub with_rest : Input → Option JobState → Option (Input × JobState)
with_rest rest none = none
with_rest rest (some s) = some (rest, s)

-- A list that was parsed, with the command that is run on it; an empty list is an invalid command.
unfoldable pub run_list {ℓ} :
    {A : Type ℓ} → (List A → M ℕ) → List A × Input → JobState → Option (Input × JobState)
unfolding guarded
run_list operation ([], rest) s = some (rest, s)
run_list operation (x ∷ xs, rest) s = with_rest rest (guarded (operation (x ∷ xs)) s)

-- `Waiting...` and the end of the line
abbrev pub waiting : Str
waiting = b'W' ∷ b'a' ∷ b'i' ∷ b't' ∷ b'i' ∷ b'n' ∷ b'g' ∷ b'.' ∷ b'.' ∷ b'.' ∷ b'\n' ∷ []

abbrev pub wait_for : ℕ → JobState → JobState
wait_for zero s = s
wait_for (suc n) s = record s {
  world = record s.world { out = s.world.out ++ waiting };
  waits = s.waits ++ suc n ∷ [];
}

unfoldable pub run_wait : Option Wait → JobState → Option (Input × JobState)
run_wait none s = none
run_wait (some (negsuc _, delay, thread, rest)) s = some (rest, s)
run_wait (some (pos _, none, thread, rest)) s = none
run_wait (some (pos _, some delay, thread, rest)) s = some (rest, wait_for delay s)

-- The child processes once there may be one more. With no backup left, the thread first waits for one to end:
-- without end if there is none, since `wait` then fails at once, every time.
abbrev pub wait_for_child : JobState → Option ℕ
wait_for_child s =
    if s.backup_counter == 0
    then (if s.children == 0 then none else some (s.children - 1))
    else some s.children

-- The child runs `kvs_backup` on its copy of the state. `fork` and the `open` of its file do not fail.
unfoldable pub run_backup : JobState → Option JobState
unfolding kvs_backup
run_backup s = elim (s.global_held == 0) [
  | false ↦ none
  | true ↦ elim (wait_for_child s) [
    | none ↦ none
    | some children ↦ elim (kvs_backup (record s.world { out = [] })) [
      | none ↦ none
      | some (_, child) ↦ some (record s {
        backup_counter = s.backup_counter - 1;
        children = children + 1;
        file_backups = s.file_backups + 1;
        backups = s.backups ++ (s.file_backups, child.out) ∷ [];
      })
    ]
  ]
]

unfoldable pub run_command : Command → Input → JobState → Option (Input × JobState)
unfolding run_list guarded run_wait run_backup
run_command cmd_write input s = run_list kvs_write (parse_write max_write_size input) s
run_command cmd_read input s = run_list kvs_read (parse_read_delete max_write_size input) s
run_command cmd_delete input s = run_list kvs_delete (parse_read_delete max_write_size input) s
run_command cmd_show input s = with_rest input (guarded kvs_show s)
run_command cmd_wait input s = run_wait (parse_wait false input) s
run_command cmd_backup input s = with_rest input (run_backup s)
run_command cmd_help input s = some (input, s)
run_command cmd_empty input s = some (input, s)
run_command cmd_invalid input s = some (input, s)
run_command eoc input s = some (input, s)

abbrev pub is_eoc : Command → Bool
is_eoc eoc = true
is_eoc _ = false

-- How the loop ends: at the end of the file, in undefined behaviour or a wait without end, or for lack of
-- fuel, which is not part of the program.
pub data Outcome : Type 0 where
  finished : JobState → Outcome
  stuck : Outcome
  out_of_fuel : Outcome

-- The loop goes on behind a command that has returned.
abbrev pub go_on : (Input → JobState → Outcome) → Option (Input × JobState) → Outcome
go_on loop none = stuck
go_on loop (some (rest, s)) = loop rest s

-- The loop over the commands, with fuel for `n` rounds.
unfoldable pub run_job : ℕ → Input → JobState → Outcome
unfolding run_command
run_job zero input s = out_of_fuel
run_job (suc n) input s =
    let (command, rest) = get_next input in
    if is_eoc command then finished s else go_on (run_job n) (run_command command rest s)
