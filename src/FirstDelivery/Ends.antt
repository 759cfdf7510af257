-- ===== src/FirstDelivery/Ends.antt =====
-- proj_p1/main.c: the command loop ends. Each round takes at least one byte of the job file.
use ist_key_value_store.Prelude.{
  ℕ, zero, suc, ◌<◌, ◌≤◌, ◌≡◌, ◌≢◌, [], ◌∷◌, Bool, false, some, arith, length, Option-cases,
  Bool-cases, inl, inr,
}
use ist_key_value_store.Operations.{max_write_size}
use ist_key_value_store.Parser.{
  Input, Command, cmd_write, cmd_read, cmd_delete, cmd_show, cmd_wait, cmd_backup,
}
use ist_key_value_store.Parser
use ist_key_value_store.Parser.Progress.{get_next-lt, parse_write-le, parse_read_delete-le}
use ist_key_value_store.Parser.Number.Progress.{parse_wait-le}
use ist_key_value_store.Jobs.{JobState, out_of_fuel, is_eoc}
use ist_key_value_store.Jobs.Fuel.{run_list-le, run_wait-le, with_rest-le}
use ist_key_value_store.FirstDelivery.Operations.{kvs_write, kvs_read, kvs_delete}
use ist_key_value_store.FirstDelivery.Parser.{get_next, parse_write, parse_read_delete, parse_wait}
use ist_key_value_store.FirstDelivery.Jobs.{run_command, run_job}

-- A command does not give input back.
run_command-le :
    (opens : ℕ → Bool) (command : Command) (input : Input) (s : JobState) (after : Input × JobState)
    → run_command opens command input s ≡ some after
    → length after.0 ≤ length input
unfolding run_command
run_command-le opens cmd_write input s after e =
    let r = parse_write max_write_size input in
    omega (arith, run_list-le kvs_write r s after e, parse_write-le max_write_size input)
run_command-le opens cmd_read input s after e =
    let r = parse_read_delete max_write_size input in
    omega (arith, run_list-le kvs_read r s after e, parse_read_delete-le max_write_size input)
run_command-le opens cmd_delete input s after e =
    let r = parse_read_delete max_write_size input in
    omega (arith, run_list-le kvs_delete r s after e, parse_read_delete-le max_write_size input)
run_command-le opens cmd_show input s after e = with_rest-le input _ after e
run_command-le opens cmd_wait input s after e =
    run_wait-le (parse_wait false input) input s after (parse_wait-le input) e
run_command-le opens cmd_backup input s after e = with_rest-le input _ after e
run_command-le opens _ input s after e = ground arith

-- With fuel for one round more than the job file has bytes, the loop of the first delivery never runs out
-- of it, whether or not the files of its backups can be opened.
pub run_job_terminates :
    (n : ℕ) (opens : ℕ → Bool) (input : Input) (s : JobState)
    → length input < n
    → run_job n opens input s ≢ out_of_fuel
unfolding run_job
run_job_terminates zero opens input s lt e = absurd (omega arith)
run_job_terminates (suc n) opens [] s lt e = unfold Parser.get_next in ground arith
run_job_terminates (suc n) opens (ch ∷ input) s lt e =
    let r = get_next (ch ∷ input) in
    elim (Bool-cases (is_eoc r.0)) [
      | inl last ↦ ground arith
      | inr more ↦ elim (Option-cases (run_command opens r.0 r.1 s)) [
        | inl fails ↦ ground arith
        | inr (after, returns) ↦
            run_job_terminates n opens after.0 after.1
              (omega (arith, run_command-le opens r.0 r.1 s after returns, get_next-lt ch input))
              (ground arith)
      ]
    ]
