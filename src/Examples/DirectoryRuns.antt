-- ===== src/Examples/DirectoryRuns.antt =====
-- Runs of a job thread on a directory.
use ist_key_value_store.Prelude.{◌≡◌, refl, [], ◌∷◌, some, true, false}
use ist_key_value_store.CString.{Str, codes, str_eq, strcmp, snprintf}
use ist_key_value_store.Jobs.Lines.{show, blank, job_text}
use ist_key_value_store.Jobs.Directory.{
  is_job, file_path, base_path, out_path, ThreadState, process_thread,
}
use ist_key_value_store.Jobs.Directory.Paths.{out_path-injective}
use ist_key_value_store.Jobs.Directory.Files.{JobFile, meaning_files, process_thread-meaning_files}
use ist_key_value_store.Examples.Fixtures.{world}

abbrev job_file : JobFile
job_file = record { name = codes "a.job"; path = codes "jobs/a.job"; lines = show ∷ blank ∷ [] }

-- A directory in which every path holds the lines of `job_file`.
abbrev thread : ThreadState
thread = record {
  opens = λ _. some (job_text job_file.lines);
  out_opens = λ _. true;
  job = record {
    world = world;
    global_error = false;
    global_held = 0;
    backup_counter = 1;
    children = 0;
    file_backups = 1;
    backups = [];
    waits = [];
  };
  outputs = [];
  backup_files = [];
}

a_is_job : is_job (codes "a.job") ≡ true
unfolding is_job str_eq strcmp
a_is_job = refl

a_path : file_path (codes "jobs") (codes "a.job") ≡ some (codes "jobs/a.job")
unfolding file_path
a_path = refl

process_thread-meaning_files_example :
    process_thread (codes "jobs") (codes "a.job" ∷ []) thread ≡ meaning_files (job_file ∷ []) thread
process_thread-meaning_files_example =
    process_thread-meaning_files (codes "jobs") (job_file ∷ []) thread (
      record { job = a_is_job; at = a_path; holds = refl; output = refl; valid = (tt, (tt, tt)) },
      tt,
    )

out_path-injective_example : ◌≡◌ {A = Str} (codes "a.job") (codes "a.job")
out_path-injective_example =
    out_path-injective (codes "jobs") (codes "a.job") (codes "a.job") (codes "jobs/a.job")
      (codes "jobs/a.job") a_is_job a_is_job a_path a_path refl

-- The output file of `jobs/a.job`.
a_out : out_path (codes "jobs/a.job") ≡ codes "jobs/a.out"
unfolding out_path base_path snprintf
a_out = refl
