-- ===== src/Jobs/Directory/Files.antt =====
-- server/main.c: a thread does what the lines of its job files say, one file after the other.
use ist_key_value_store.Prelude.{
  suc, ◌≤◌, ◌<◌, ◌≡◌, refl, ◌∙◌, List, [], ◌∷◌, ◌++◌, Option, some, Bool, true, arith, All, length,
  length-append, map,
}
use ist_key_value_store.CString.{Str}
use ist_key_value_store.Parser.{Input}
use ist_key_value_store.Parser.RoundTrip.{keys_text, pairs_text}
use ist_key_value_store.Parser.Digits.{decimal_text}
use ist_key_value_store.Jobs.{JobState, Outcome, finished, stuck, out_of_fuel}
use ist_key_value_store.Jobs.Lines.{
  Line, write, read, delete, show, backup, blank, wait, IsValid, line_text, job_text, meaning_all,
  run_job-job_text_le,
}
use ist_key_value_store.Jobs.Directory.{
  is_job, file_path, out_path, ThreadState, Exit, done, close_file, after_job, run_file,
  process_thread,
}

-- A job file: its name, its path and its lines.
pub record JobFile : Type 0 where
  pub name : Str
  pub path : Str
  pub lines : List Line

-- It is in the directory, can be opened, and holds these lines, which are well formed; its output file can
-- be opened.
pub record IsJobFile (directory_path : Str) (opens : Str → Option Input) (out_opens : Str → Bool)
    (f : JobFile) : Type 0 where
  pub job : is_job f.name ≡ true
  pub at : file_path directory_path f.name ≡ some f.path
  pub holds : opens f.path ≡ some (job_text f.lines)
  pub output : out_opens (out_path f.path) ≡ true
  pub valid : All IsValid f.lines

-- The state at the start of a file: nothing is printed, no backup is made, and the first will have number 1.
abbrev pub fresh : JobState → JobState
fresh s = record s { world = record s.world { out = [] }; file_backups = 1; backups = [] }

-- What job files are meant to do: the operations of their lines, each file with an output of its own.
abbrev pub meaning_files : List JobFile → ThreadState → Exit
meaning_files [] t = done t
meaning_files (f ∷ fs) t = after_job (meaning_files fs) f.path t (meaning_all f.lines (fresh t.job))

length-keys_text-le : (ks : List Str) (tail : Input) → length tail ≤ length (keys_text ks tail)
unfolding keys_text
length-keys_text-le [] tail = omega arith
length-keys_text-le (k ∷ []) tail = omega (arith, length-append k (b']' ∷ tail))
length-keys_text-le (k ∷ j ∷ js) tail =
    omega
      (arith, length-append k (b',' ∷ keys_text (j ∷ js) tail), length-keys_text-le (j ∷ js) tail)

length-pairs_text-le :
    (ps : List (Str × Str)) (tail : Input) → length tail ≤ length (pairs_text ps tail)
unfolding pairs_text
length-pairs_text-le [] tail = omega arith
length-pairs_text-le ((k, v) ∷ []) tail = omega (
  arith,
  length-append k (b',' ∷ v ++ (b')' ∷ b']' ∷ tail)),
  length-append v (b')' ∷ b']' ∷ tail),
)
length-pairs_text-le ((k, v) ∷ q ∷ qs) tail = omega (
  arith,
  length-append k (b',' ∷ v ++ (b')' ∷ b'(' ∷ pairs_text (q ∷ qs) tail)),
  length-append v (b')' ∷ b'(' ∷ pairs_text (q ∷ qs) tail),
  length-pairs_text-le (q ∷ qs) tail,
)

-- A line has a byte at least.
length-line_text-lt : (l : Line) (rest : Input) → length rest < length (line_text l rest)
length-line_text-lt (write p ps) rest = omega (arith, length-pairs_text-le (p ∷ ps) (b'\n' ∷ rest))
length-line_text-lt (read k ks) rest = omega (arith, length-keys_text-le (k ∷ ks) (b'\n' ∷ rest))
length-line_text-lt (delete k ks) rest = omega (arith, length-keys_text-le (k ∷ ks) (b'\n' ∷ rest))
length-line_text-lt show rest = omega arith
length-line_text-lt backup rest = omega arith
length-line_text-lt blank rest = omega arith
length-line_text-lt (wait delay) rest =
    omega (arith, length-append (decimal_text delay) (b'\n' ∷ rest))

length-job_text-le : (ls : List Line) → length ls ≤ length (job_text ls)
length-job_text-le [] = omega arith
length-job_text-le (l ∷ ls) =
    omega (arith, length-line_text-lt l (job_text ls), length-job_text-le ls)

after_job_congr :
    (loop loop' : ThreadState → Exit) (path : Str) (t : ThreadState) (o : Outcome)
    → ((s : JobState) → loop (close_file path t s) ≡ loop' (close_file path t s))
    → after_job loop path t o ≡ after_job loop' path t o
after_job_congr loop loop' path t (finished s) h = h s
after_job_congr loop loop' path t stuck h = refl
after_job_congr loop loop' path t out_of_fuel h = refl

-- A round of the loop.
file_round :
    (directory_path : Str) (names : List Str) (f : JobFile) (t : ThreadState)
    → IsJobFile directory_path t.opens t.out_opens f
    → process_thread directory_path (f.name ∷ names) t
      ≡ after_job (process_thread directory_path names) f.path t (meaning_all f.lines (fresh t.job))
unfolding process_thread run_file
file_round directory_path names f t h =
    let run =
      run_job-job_text_le (suc (length (job_text f.lines))) f.lines (fresh t.job)
        (omega (arith, length-job_text-le f.lines)) h.valid in
    ground (arith, h.job, h.at, h.holds, h.output, run)

-- A thread that gets the names of job files with well-formed lines, all of which it can open, performs for
-- each file in turn the operations that its lines name, with an output of its own and its backups numbered
-- from 1, and goes on with the state that they leave: until the last file is done, or an operation is
-- undefined behaviour or never returns.
pub process_thread-meaning_files :
    (directory_path : Str) (fs : List JobFile) (t : ThreadState)
    → All (IsJobFile directory_path t.opens t.out_opens) fs
    → process_thread directory_path (map (λ f. f.name) fs) t ≡ meaning_files fs t
unfolding process_thread
process_thread-meaning_files directory_path [] t h = refl
process_thread-meaning_files directory_path (f ∷ fs) t h =
    let names = map (λ (g : JobFile). g.name) fs in
    file_round directory_path names f t h.0
    ∙ after_job_congr (process_thread directory_path names) (meaning_files fs) f.path t
        (meaning_all f.lines (fresh t.job))
        (λ s. process_thread-meaning_files directory_path fs (close_file f.path t s) h.1)
