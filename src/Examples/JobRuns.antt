-- ===== src/Examples/JobRuns.antt =====
-- A job file that is run.
use ist_key_value_store.Prelude.{◌≡◌, ◌≢◌, [], ◌∷◌, false, List, arith}
use ist_key_value_store.Parser.RoundTrip.{IsToken}
use ist_key_value_store.Jobs.{JobState, out_of_fuel, run_job}
use ist_key_value_store.Jobs.Lines.{
  Line, write, read, show, wait, job_text, meaning_all, run_job-job_text,
}
use ist_key_value_store.Jobs.Fuel.{run_job_ends}
use ist_key_value_store.Examples.Fixtures.{ant, two, world}

ant-IsToken : IsToken ant
ant-IsToken = record { plain = ground arith; short = omega arith }

two-IsToken : IsToken two
two-IsToken = record { plain = ground arith; short = omega arith }

abbrev job : JobState
job = record {
  world = world;
  global_error = false;
  global_held = 0;
  backup_counter = 1;
  children = 0;
  file_backups = 1;
  backups = [];
  waits = [];
}

abbrev lines : List Line
lines = write (ant, two) [] ∷ read ant [] ∷ wait 250 ∷ show ∷ []

run_job-job_text_example : run_job 5 (job_text lines) job ≡ meaning_all lines job
run_job-job_text_example = run_job-job_text lines job (
  (((ant-IsToken, two-IsToken), tt), omega arith),
  (((ant-IsToken, tt), omega arith), (omega arith, (tt, tt))),
)

run_job_ends_example : run_job 10 (b'S' ∷ b'H' ∷ b'O' ∷ b'W' ∷ []) job ≢ out_of_fuel
run_job_ends_example = run_job_ends 10 (b'S' ∷ b'H' ∷ b'O' ∷ b'W' ∷ []) job (omega arith)
