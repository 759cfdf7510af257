-- ===== src/FirstDelivery/Directory.antt =====
-- proj_p1/main.c: the loop of `process_thread` over the entries of the directory, around the commands of one
-- file. The state and the names are those of Jobs.Directory.
use ist_key_value_store.Prelude.{
  ℕ, suc, ◌+◌, ◌≢◌, refl, List, [], ◌∷◌, ◌++◌, none, some, Bool, true, false, arith, length, map,
  Bool-cases, Option-cases, inl, inr,
}
use ist_key_value_store.CString.{Str, codes, snprintf}
use ist_key_value_store.Parser.Digits.{decimal_text}
use ist_key_value_store.Jobs.{JobState, Outcome, finished, stuck, out_of_fuel}
use ist_key_value_store.Jobs.Directory.{
  is_job, base_path, ThreadState, Exit, done, cannot_open, stuck_in_job, no_fuel, start_file,
}
use ist_key_value_store.FirstDelivery.Jobs.{run_job}
use ist_key_value_store.FirstDelivery.Ends.{run_job_terminates}

abbrev pub path_max : ℕ
path_max = 4096

-- The path of an entry, cut to its array.
unfoldable pub file_path : Str → Str → Str
unfolding snprintf
file_path directory_path name = snprintf path_max (directory_path ++ (b'/' ∷ name))

-- The code gives `snprintf` four bytes more than the array has; the path with `.out` never needs them.
unfoldable pub out_path : Str → Str
unfolding base_path snprintf
out_path path = snprintf (path_max + 4) (base_path path ++ codes ".out")

-- The path of the backup with this number.
unfoldable pub backup_path : Str → ℕ → Str
unfolding base_path snprintf
backup_path path number =
    snprintf path_max (base_path path ++ (b'-' ∷ decimal_text number ++ codes ".bck"))

abbrev pub close_file : Str → ThreadState → JobState → ThreadState
close_file path t s = record t {
  job = s;
  outputs = t.outputs ++ (out_path path, s.world.out) ∷ [];
  backup_files = t.backup_files ++ map (λ b. (backup_path path b.0, b.1)) s.backups;
}

-- The loop goes on behind a job file that was run to its end.
abbrev pub after_job : (ThreadState → Exit) → Str → ThreadState → Outcome → Exit
after_job loop path t (finished s) = loop (close_file path t s)
after_job loop path t stuck = stuck_in_job
after_job loop path t out_of_fuel = no_fuel

-- One job file, with enough fuel for its bytes; `bck_opens` has the backups whose files can be opened.
unfoldable pub run_file : (ThreadState → Exit) → (Str → Bool) → Str → ThreadState → Exit
unfolding run_job out_path backup_path
run_file loop bck_opens path t = elim (t.opens path) [
  | none ↦ cannot_open t
  | some input ↦ elim (t.out_opens (out_path path)) [
    | false ↦ cannot_open t
    | true ↦ after_job loop path t (
        run_job (suc (length input)) (λ n. bck_opens (backup_path path n)) input (start_file t.job))
  ]
]

unfoldable pub process_thread : (Str → Bool) → Str → List Str → ThreadState → Exit
unfolding is_job file_path run_file
process_thread bck_opens directory_path [] t = done t
process_thread bck_opens directory_path (name ∷ names) t =
    let loop = process_thread bck_opens directory_path names in
    elim (is_job name) [
      | false ↦ loop t
      | true ↦ run_file loop bck_opens (file_path directory_path name) t
    ]

after_job-ne-no_fuel :
    (loop : ThreadState → Exit) (path : Str) (t : ThreadState) (o : Outcome)
    → ((t : ThreadState) → loop t ≢ no_fuel)
    → o ≢ out_of_fuel
    → after_job loop path t o ≢ no_fuel
after_job-ne-no_fuel loop path t (finished s) ih h e = ih (close_file path t s) e
after_job-ne-no_fuel loop path t stuck ih h e = cc
after_job-ne-no_fuel loop path t out_of_fuel ih h e = h refl

run_file-ne-no_fuel :
    (loop : ThreadState → Exit) (bck_opens : Str → Bool) (path : Str) (t : ThreadState)
    → ((t : ThreadState) → loop t ≢ no_fuel)
    → run_file loop bck_opens path t ≢ no_fuel
unfolding run_file
run_file-ne-no_fuel loop bck_opens path t ih e = elim (Option-cases (t.opens path)) [
  | inl missing ↦ ground arith
  | inr (input, found) ↦ elim (Bool-cases (t.out_opens (out_path path))) [
    | inr refused ↦ ground arith
    | inl opened ↦
        let opens : ℕ → Bool = λ n. bck_opens (backup_path path n) in
        after_job-ne-no_fuel loop path t
          (run_job (suc (length input)) opens input (start_file t.job)) ih
          (run_job_terminates (suc (length input)) opens input (start_file t.job) (omega arith))
          (ground arith)
  ]
]

-- The fuel that a thread of the first delivery gives to each of its job files, one round more than the file
-- has bytes, is enough, whatever the directory and its files hold and whichever backups can be opened.
pub process_thread_terminates :
    (bck_opens : Str → Bool) (directory_path : Str) (names : List Str) (t : ThreadState)
    → process_thread bck_opens directory_path names t ≢ no_fuel
unfolding process_thread
process_thread_terminates bck_opens directory_path [] t e = cc
process_thread_terminates bck_opens directory_path (name ∷ names) t e =
    let ih = process_thread_terminates bck_opens directory_path names in
    elim (Bool-cases (is_job name)) [
      | inr other ↦ ih t (ground arith)
      | inl job ↦
          run_file-ne-no_fuel (process_thread bck_opens directory_path names) bck_opens
            (file_path directory_path name) t ih (ground arith)
    ]
