-- ===== src/Jobs/Directory/Ends.antt =====
-- server/main.c: a thread runs the job files that it finds, one after the other.
use ist_key_value_store.Prelude.{
  suc, ◌≢◌, refl, List, [], ◌∷◌, arith, length, Bool-cases, Option-cases, inl, inr,
}
use ist_key_value_store.CString.{Str}
use ist_key_value_store.Jobs.{Outcome, finished, stuck, out_of_fuel, run_job}
use ist_key_value_store.Jobs.Fuel.{run_job_ends}
use ist_key_value_store.Jobs.Directory.{
  is_job, file_path, out_path, ThreadState, Exit, no_fuel, start_file, close_file, after_job,
  run_file, process_thread,
}

after_job-ne-no_fuel :
    (loop : ThreadState → Exit) (path : Str) (t : ThreadState) (o : Outcome)
    → ((t : ThreadState) → loop t ≢ no_fuel)
    → o ≢ out_of_fuel
    → after_job loop path t o ≢ no_fuel
after_job-ne-no_fuel loop path t (finished s) ih h e = ih (close_file path t s) e
after_job-ne-no_fuel loop path t stuck ih h e = cc
after_job-ne-no_fuel loop path t out_of_fuel ih h e = h refl

run_file-ne-no_fuel :
    (loop : ThreadState → Exit) (path : Str) (t : ThreadState)
    → ((t : ThreadState) → loop t ≢ no_fuel)
    → run_file loop path t ≢ no_fuel
unfolding run_file
run_file-ne-no_fuel loop path t ih e = elim (Option-cases (t.opens path)) [
  | inl missing ↦ ground arith
  | inr (input, found) ↦ elim (Bool-cases (t.out_opens (out_path path))) [
    | inr refused ↦ ground arith
    | inl opened ↦
        after_job-ne-no_fuel loop path t (run_job (suc (length input)) input (start_file t.job)) ih
          (run_job_ends (suc (length input)) input (start_file t.job) (omega arith)) (ground arith)
  ]
]

-- The fuel that a thread gives to each of its job files, one round more than the file has bytes, is enough,
-- whatever the directory and its files hold.
pub process_thread_ends :
    (directory_path : Str) (names : List Str) (t : ThreadState)
    → process_thread directory_path names t ≢ no_fuel
unfolding process_thread
process_thread_ends directory_path [] t e = cc
process_thread_ends directory_path (name ∷ names) t e =
    let ih = process_thread_ends directory_path names in
    elim (Bool-cases (is_job name)) [
      | inr other ↦ ih t (ground arith)
      | inl job ↦ elim (Option-cases (file_path directory_path name)) [
        | inl long ↦ ih t (ground arith)
        | inr (path, fits) ↦
            run_file-ne-no_fuel (process_thread directory_path names) path t ih (ground arith)
      ]
    ]
