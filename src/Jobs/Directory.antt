-- ===== src/Jobs/Directory.antt =====
-- server/main.c: the loop of `process_thread` over the entries of the directory, around the commands of one
-- file. What `readdir` gives a thread is a list of names: the mutex around it gives each name to one thread.
pub mod Paths
pub mod Ends
pub mod Files
use ist_key_value_store.Prelude.{
  ℕ, zero, suc, ◌+◌, ◌-◌, List, [], ◌∷◌, ◌++◌, Option, none, some, Bool, true, false, ltb, leb,
  ◌&&◌, length, take, drop, not, map, if◌then◌else◌,
}
use ist_key_value_store.CString.{Str, codes, str_eq, snprintf, strlen}
use ist_key_value_store.Machine.{World}
use ist_key_value_store.Parser.{Input}
use ist_key_value_store.Parser.Digits.{decimal_text}
use ist_key_value_store.Jobs.{JobState, Outcome, finished, stuck, out_of_fuel, run_job}

abbrev pub max_job_file_name_size : ℕ
max_job_file_name_size = 256

-- Whether a name ends in `.job`.
unfoldable pub is_job : Str → Bool
is_job name = let len = length name in leb 4 len && str_eq (drop (len - 4) name) (codes ".job")

-- The path of an entry; `none` if it does not fit its array.
unfoldable pub file_path : Str → Str → Option Str
file_path directory_path name =
    let path = directory_path ++ (b'/' ∷ name) in
    if ltb (length path) max_job_file_name_size then some path else none

-- The path without its last four bytes.
unfoldable pub base_path : Str → Str
base_path path = take (length path - 4) path

-- The code gives `snprintf` four bytes more than the array has; the path with `.out` never needs them.
unfoldable pub out_path : Str → Str
unfolding base_path snprintf
out_path path = snprintf (max_job_file_name_size + 4) (base_path path ++ codes ".out")

-- The path of the backup with this number.
unfoldable pub backup_path : Str → ℕ → Str
unfolding base_path snprintf
backup_path path number =
    snprintf max_job_file_name_size (base_path path ++ (b'-' ∷ decimal_text number ++ codes ".bck"))

-- What the files of the directory are, and whether an output file can be opened; then what was written:
-- output files and backups, with their paths.
pub record ThreadState : Type 0 where
  pub opens : Str → Option Input
  pub out_opens : Str → Bool
  pub job : JobState
  pub outputs : List (Str × Str)
  pub backup_files : List (Str × Str)

-- How the thread ends: with no name left, at a file that cannot be opened, or in a command, as `Outcome`.
pub data Exit : Type 0 where
  done : ThreadState → Exit
  cannot_open : ThreadState → Exit
  stuck_in_job : Exit
  no_fuel : Exit

-- A file has its own output and its own numbers of backups.
abbrev pub start_file : JobState → JobState
start_file s = record s { world = record s.world { out = [] }; file_backups = 1; backups = [] }

abbrev pub close_file : Str → ThreadState → JobState → ThreadState
close_file path t s = record t {
  job = s;
  outputs = t.outputs ++ (out_path path, s.world.out) ∷ [];
  backup_files = t.backup_files ++ map (λ b. (backup_path path b.0, b.1)) s.backups;
}

-- The loop goes on behind a job file that was run to its end.
abbrev pub after_job : (ThreadState → Exit) → Str → ThreadState → Outcome → Exit
after_job loop path t (finished s) = loop (close_file path t s)
after_job loop path t stuck = stuck_in_job
after_job loop path t out_of_fuel = no_fuel

-- One job file, with enough fuel for its bytes.
unfoldable pub run_file : (ThreadState → Exit) → Str → ThreadState → Exit
unfolding run_job out_path backup_path
run_file loop path t = elim (t.opens path) [
  | none ↦ cannot_open t
  | some input ↦ elim (t.out_opens (out_path path)) [
    | false ↦ cannot_open t
    | true ↦ after_job loop path t (run_job (suc (length input)) input (start_file t.job))
  ]
]

unfoldable pub process_thread : Str → List Str → ThreadState → Exit
unfolding is_job file_path run_file
process_thread directory_path [] t = done t
process_thread directory_path (name ∷ names) t =
    let loop = process_thread directory_path names in
    elim (is_job name) [
      | false ↦ loop t
      | true ↦ elim (file_path directory_path name) [
        | none ↦ loop t
        | some path ↦ run_file loop path t
      ]
    ]
