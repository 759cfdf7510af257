-- ===== src/FirstDelivery/Jobs.antt =====
-- proj_p1/main.c: the commands of one job file, in the loop of `process_thread`. The rounds are those of
-- Jobs, with the operations of the first delivery.
use ist_key_value_store.Prelude.{
  ℕ, zero, suc, ◌+◌, ◌-◌, [], ◌∷◌, ◌++◌, Option, none, some, Bool, true, false, ◌==◌, if◌then◌else◌,
}
use ist_key_value_store.Operations.{max_write_size}
use ist_key_value_store.Parser.{
  Input, Command, cmd_write, cmd_read, cmd_delete, cmd_show, cmd_wait, cmd_backup, cmd_help,
  cmd_empty, cmd_invalid, eoc,
}
use ist_key_value_store.Jobs.{
  JobState, wait_for_child, Outcome, finished, out_of_fuel, guarded, with_rest, run_list, run_wait,
  is_eoc, go_on,
}
use ist_key_value_store.FirstDelivery.Operations.{
  kvs_write, kvs_read, kvs_delete, kvs_show, kvs_backup,
}
use ist_key_value_store.FirstDelivery.Parser.{get_next, parse_write, parse_read_delete, parse_wait}

-- The child runs `kvs_backup` on its copy of the state, if `opens` has the file of this backup opened.
-- `fork` does not fail.
unfoldable pub run_backup : (ℕ → Bool) → JobState → Option JobState
unfolding kvs_backup
run_backup opens s = elim (s.global_held == 0) [
  | false ↦ none
  | true ↦ elim (wait_for_child s) [
    | none ↦ none
    | some children ↦
        let counted : JobState = record s {
          backup_counter = s.backup_counter - 1;
          children = children + 1;
          file_backups = s.file_backups + 1;
        } in
        elim (opens s.file_backups) [
          | false ↦ some counted
          | true ↦ elim (kvs_backup false (record s.world { out = [] })) [
            | none ↦ none
            | some (_, child) ↦
                some (record counted { backups = s.backups ++ (s.file_backups, child.out) ∷ [] })
          ]
        ]
  ]
]

unfoldable pub run_command : (ℕ → Bool) → Command → Input → JobState → Option (Input × JobState)
unfolding run_list guarded run_wait run_backup
run_command opens cmd_write input s = run_list kvs_write (parse_write max_write_size input) s
run_command opens cmd_read input s = run_list kvs_read (parse_read_delete max_write_size input) s
run_command opens cmd_delete input s =
    run_list kvs_delete (parse_read_delete max_write_size input) s
run_command opens cmd_show input s = with_rest input (guarded kvs_show s)
run_command opens cmd_wait input s = run_wait (parse_wait false input) s
run_command opens cmd_backup input s = with_rest input (run_backup opens s)
run_command opens cmd_help input s = some (input, s)
run_command opens cmd_empty input s = some (input, s)
run_command opens cmd_invalid input s = some (input, s)
run_command opens eoc input s = some (input, s)

-- The loop over the commands, with fuel for `n` rounds.
unfoldable pub run_job : ℕ → (ℕ → Bool) → Input → JobState → Outcome
unfolding run_command
run_job zero opens input s = out_of_fuel
run_job (suc n) opens input s =
    let (command, rest) = get_next input in
    if is_eoc command
    then finished s
    else go_on (run_job n opens) (run_command opens command rest s)
