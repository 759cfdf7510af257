-- ===== src/Jobs/Fuel.antt =====
-- server/main.c: the command loop ends. Each round takes at least one byte of the job file.
use ist_key_value_store.Prelude.{
  ℕ, zero, suc, ◌<◌, ◌≤◌, ◌≡◌, ◌≢◌, refl, List, [], ◌∷◌, Option, none, some, pos, negsuc, arith,
  length, false, Option-cases, Bool-cases, inl, inr,
}
use ist_key_value_store.Machine.{M}
use ist_key_value_store.Operations.{kvs_write, kvs_read, kvs_delete, max_write_size}
use ist_key_value_store.Parser.{
  Input, Command, cmd_write, cmd_read, cmd_delete, cmd_show, cmd_wait, cmd_backup, get_next,
  parse_write, parse_read_delete,
}
use ist_key_value_store.Parser.Number.{Wait, parse_wait}
use ist_key_value_store.Parser.Progress.{get_next-lt, parse_write-le, parse_read_delete-le}
use ist_key_value_store.Parser.Number.Progress.{parse_wait-le}
use ist_key_value_store.Jobs.{
  JobState, finished, out_of_fuel, run_list, run_wait, run_command, run_job, with_rest, guarded,
  is_eoc,
}

pub run_list-le {ℓ} :
    {A : Type ℓ} (operation : List A → M ℕ) (r : List A × Input) (s : JobState)
    (after : Input × JobState)
    → run_list operation r s ≡ some after
    → length after.0 ≤ length r.1
unfolding run_list
run_list-le operation ([], rest) s after e = ground arith
run_list-le operation (x ∷ xs, rest) s after e =
    elim (Option-cases (guarded (operation (x ∷ xs)) s)) [
      | inl none_left ↦ ground arith
      | inr (s', done) ↦ ground arith
    ]

pub run_wait-le :
    (o : Option Wait) (input : Input) (s : JobState) (after : Input × JobState)
    → ((w : Wait) → o ≡ some w → length w.3 ≤ length input)
    → run_wait o s ≡ some after
    → length after.0 ≤ length input
unfolding run_wait
run_wait-le none input s after h e = absurd cc
run_wait-le (some (negsuc _, delay, thread, rest)) input s after h e = ground (arith, h _ refl)
run_wait-le (some (pos _, none, thread, rest)) input s after h e = absurd cc
run_wait-le (some (pos _, some delay, thread, rest)) input s after h e = ground (arith, h _ refl)

pub with_rest-le :
    (input : Input) (o : Option JobState) (after : Input × JobState)
    → with_rest input o ≡ some after
    → length after.0 ≤ length input
with_rest-le input none after e = absurd cc
with_rest-le input (some s) after e = ground arith

-- A command does not give input back.
run_command-le :
    (command : Command) (input : Input) (s : JobState) (after : Input × JobState)
    → run_command command input s ≡ some after
    → length after.0 ≤ length input
unfolding run_command
run_command-le cmd_write input s after e =
    let r = parse_write max_write_size input in
    omega (arith, run_list-le kvs_write r s after e, parse_write-le max_write_size input)
run_command-le cmd_read input s after e =
    let r = parse_read_delete max_write_size input in
    omega (arith, run_list-le kvs_read r s after e, parse_read_delete-le max_write_size input)
run_command-le cmd_delete input s after e =
    let r = parse_read_delete max_write_size input in
    omega (arith, run_list-le kvs_delete r s after e, parse_read_delete-le max_write_size input)
run_command-le cmd_show input s after e = with_rest-le input _ after e
run_command-le cmd_wait input s after e =
    run_wait-le (parse_wait false input) input s after (parse_wait-le input) e
run_command-le cmd_backup input s after e = with_rest-le input _ after e
run_command-le _ input s after e = ground arith

pub run_job-nothing : (n : ℕ) (s : JobState) → run_job (suc n) [] s ≡ finished s
unfolding run_job get_next
run_job-nothing n s = refl

-- With fuel for one round more than the job file has bytes, the loop never runs out of it: it reaches the
-- end of the file unless a command is undefined behaviour or waits without end.
pub run_job_ends :
    (n : ℕ) (input : Input) (s : JobState) → length input < n → run_job n input s ≢ out_of_fuel
unfolding run_job
run_job_ends zero input s lt e = absurd (omega arith)
run_job_ends (suc n) [] s lt e = let done = run_job-nothing n s in cc
run_job_ends (suc n) (ch ∷ input) s lt e =
    let r = get_next (ch ∷ input) in
    elim (Bool-cases (is_eoc r.0)) [
      | inl last ↦ ground arith
      | inr more ↦ elim (Option-cases (run_command r.0 r.1 s)) [
        | inl fails ↦ ground arith
        | inr (after, returns) ↦
            run_job_ends n after.0 after.1
              (omega (arith, run_command-le r.0 r.1 s after returns, get_next-lt ch input))
              (ground arith)
      ]
    ]
