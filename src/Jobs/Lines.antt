-- ===== src/Jobs/Lines.antt =====
-- server/main.c with server/parser.c: a well-formed job file is run command by command.
use ist_key_value_store.Prelude.{
  ℕ, zero, suc, ◌^◌, ◌<◌, ◌≡◌, refl, ◌∙◌, List, [], ◌∷◌, ◌++◌, Option, none, some, arith, All,
  length, false,
}
use ist_key_value_store.CString.{Str}
use ist_key_value_store.Operations.{kvs_write, kvs_read, kvs_delete, max_write_size}
use ist_key_value_store.Dump.{kvs_show}
use ist_key_value_store.Parser.{
  Input, cmd_write, cmd_read, cmd_delete, cmd_show, cmd_wait, cmd_backup, cmd_empty,
}
use ist_key_value_store.Parser.Commands.{command_text, get_next-command_text}
use ist_key_value_store.Parser.RoundTrip.{
  IsToken, AreTokens, pairs_text, keys_text, parse_write-pairs_text, parse_read_delete-keys_text,
}
use ist_key_value_store.Parser.Digits.{decimal_text, parse_wait-decimal_text}
use ist_key_value_store.Jobs.Fuel.{run_job-nothing}
use ist_key_value_store.Jobs.{
  JobState, Outcome, finished, stuck, guarded, wait_for, run_backup, run_command, run_job,
}

-- The commands of a job file, with at least one pair or key.
pub data Line : Type 0 where
  write : Str × Str → List (Str × Str) → Line
  read delete : Str → List Str → Line
  show backup blank : Line
  wait : ℕ → Line

abbrev pub line_text : Line → Input → Input
line_text (write p ps) rest =
    command_text cmd_write ++ (b'[' ∷ b'(' ∷ pairs_text (p ∷ ps) (b'\n' ∷ rest))
line_text (read k ks) rest = command_text cmd_read ++ (b'[' ∷ keys_text (k ∷ ks) (b'\n' ∷ rest))
line_text (delete k ks) rest = command_text cmd_delete ++ (b'[' ∷ keys_text (k ∷ ks) (b'\n' ∷ rest))
line_text show rest = command_text cmd_show ++ rest
line_text backup rest = command_text cmd_backup ++ rest
line_text blank rest = command_text cmd_empty ++ rest
line_text (wait delay) rest = command_text cmd_wait ++ (decimal_text delay ++ b'\n' ∷ rest)

abbrev pub job_text : List Line → Input
job_text [] = []
job_text (l ∷ ls) = line_text l (job_text ls)

-- Fewer than 256 pairs or keys, no delimiters in them, all shorter than their arrays; a delay of 32 bits.
abbrev pub IsValid : Line → Type 0
IsValid (write p ps) = AreTokens (p ∷ ps) × (length (p ∷ ps) < max_write_size)
IsValid (read k ks) = All IsToken (k ∷ ks) × (length (k ∷ ks) < max_write_size)
IsValid (delete k ks) = All IsToken (k ∷ ks) × (length (k ∷ ks) < max_write_size)
IsValid (wait delay) = delay < 2 ^ 32
IsValid _ = Unit

-- What a command is meant to do.
abbrev pub meaning : Line → JobState → Option JobState
meaning (write p ps) s = guarded (kvs_write (p ∷ ps)) s
meaning (read k ks) s = guarded (kvs_read (k ∷ ks)) s
meaning (delete k ks) s = guarded (kvs_delete (k ∷ ks)) s
meaning show s = guarded kvs_show s
meaning backup s = run_backup s
meaning blank s = some s
meaning (wait delay) s = some (wait_for delay s)

abbrev pub and_then : Option JobState → (JobState → Outcome) → Outcome
and_then none f = stuck
and_then (some s) f = f s

abbrev pub meaning_all : List Line → JobState → Outcome
meaning_all [] s = finished s
meaning_all (l ∷ ls) s = and_then (meaning l s) (meaning_all ls)

-- One round of the loop.
pub run_job-line :
    (l : Line) (n : ℕ) (rest : Input) (s : JobState)
    → IsValid l
    → run_job (suc n) (line_text l rest) s ≡ and_then (meaning l s) (run_job n rest)
unfolding run_job run_command
run_job-line (write p ps) n rest s v =
    let tail = b'[' ∷ b'(' ∷ pairs_text (p ∷ ps) (b'\n' ∷ rest) in
    ground (
      arith,
      get_next-command_text cmd_write tail (λ e. absurd cc),
      parse_write-pairs_text max_write_size p ps rest v.1 v.0,
    )
run_job-line (read k ks) n rest s v =
    let tail = b'[' ∷ keys_text (k ∷ ks) (b'\n' ∷ rest) in
    ground (
      arith,
      get_next-command_text cmd_read tail (λ e. absurd cc),
      parse_read_delete-keys_text max_write_size k ks rest v.1 v.0,
    )
run_job-line (delete k ks) n rest s v =
    let tail = b'[' ∷ keys_text (k ∷ ks) (b'\n' ∷ rest) in
    ground (
      arith,
      get_next-command_text cmd_delete tail (λ e. absurd cc),
      parse_read_delete-keys_text max_write_size k ks rest v.1 v.0,
    )
run_job-line show n rest s v = ground (arith, get_next-command_text cmd_show rest (λ e. absurd cc))
run_job-line backup n rest s v =
    ground (arith, get_next-command_text cmd_backup rest (λ e. absurd cc))
run_job-line blank n rest s v =
    ground (arith, get_next-command_text cmd_empty rest (λ e. absurd cc))
run_job-line (wait delay) n rest s v = ground (
  arith,
  get_next-command_text cmd_wait (decimal_text delay ++ b'\n' ∷ rest) (λ e. absurd cc),
  parse_wait-decimal_text delay false rest v,
)

pub and_then_congr :
    (o : Option JobState) (f g : JobState → Outcome)
    → ((s : JobState) → f s ≡ g s)
    → and_then o f ≡ and_then o g
and_then_congr none f g h = refl
and_then_congr (some s) f g h = h s

-- A job file of any number of WRITE, READ, DELETE, SHOW, BACKUP, WAIT and empty lines, where each list has at
-- least one and fewer than 256 entries, keys and values are shorter than 40 bytes and hold no NUL and no
-- delimiter, and delays are below 2 ^ 32, is run, with fuel for one round more than it has lines, exactly
-- as the sequence of the operations that its lines name with their arguments: to its end, or to the first
-- operation that is undefined behaviour or never returns.
pub run_job-job_text :
    (ls : List Line) (s : JobState)
    → All IsValid ls
    → run_job (suc (length ls)) (job_text ls) s ≡ meaning_all ls s
run_job-job_text [] s v = run_job-nothing 0 s
run_job-job_text (l ∷ ls) s v =
    run_job-line l (suc (length ls)) (job_text ls) s v.0
    ∙ and_then_congr (meaning l s) (run_job (suc (length ls)) (job_text ls)) (meaning_all ls)
        (λ s'. run_job-job_text ls s' v.1)

-- More fuel changes nothing.
pub run_job-job_text_le :
    (n : ℕ) (ls : List Line) (s : JobState)
    → length ls < n
    → All IsValid ls
    → run_job n (job_text ls) s ≡ meaning_all ls s
run_job-job_text_le zero ls s l v = absurd (omega arith)
run_job-job_text_le (suc n) [] s l v = run_job-nothing n s
run_job-job_text_le (suc n) (l ∷ ls) s lt v =
    run_job-line l n (job_text ls) s v.0
    ∙ and_then_congr (meaning l s) (run_job n (job_text ls)) (meaning_all ls)
        (λ s'. run_job-job_text_le n ls s' (omega arith) v.1)
