-- ===== src/Jobs/Directory/Paths.antt =====
-- server/main.c: the files that a job file has.
use ist_key_value_store.Prelude.{
  ℕ, zero, suc, ◌+◌, ◌-◌, ◌^◌, length-take, ◌≤◌, ◌<◌, ◌≡◌, refl, sym, ap, ◌∙◌, [], ◌∷◌, ◌++◌,
  append_assoc, some, true, arith, length, length-append, take, drop,
}
use ist_key_value_store.CString.{Str, codes}
use ist_key_value_store.CString.Order.{str_eq_iff}
use ist_key_value_store.Operations.Text.{snprintf-fits}
use ist_key_value_store.Parser.Number.{decimal}
use ist_key_value_store.Parser.Digits.{decimal_text, decimal_text-Prints}
use ist_key_value_store.Requests.Messages.{take-field, drop-field}
use ist_key_value_store.Jobs.Directory.{
  max_job_file_name_size, is_job, file_path, base_path, out_path, backup_path,
}

take-append-drop : (n : ℕ) (xs : Str) → take n xs ++ drop n xs ≡ xs
take-append-drop zero xs = refl
take-append-drop (suc n) [] = refl
take-append-drop (suc n) (x ∷ xs) = ap (λ t. x ∷ t) (take-append-drop n xs)

-- The name of a job file without `.job`.
abbrev stem : Str → Str
stem name = take (length name - 4) name

is_job-stem : (name : Str) → is_job name ≡ true → name ≡ stem name ++ codes ".job"
unfolding is_job
is_job-stem name h =
    let suffix : drop (length name - 4) name ≡ codes ".job" =
      (str_eq_iff (drop (length name - 4) name) (codes ".job")).0 (ground arith) in
    sym (take-append-drop (length name - 4) name) ∙ ap (λ t. stem name ++ t) suffix

-- The path of a job file, and that without `.job`.
abbrev base : Str → Str → Str
base directory_path name = directory_path ++ (b'/' ∷ stem name)

file_path-base :
    (directory_path name path : Str)
    → is_job name ≡ true
    → file_path directory_path name ≡ some path
    → (path ≡ base directory_path name ++ codes ".job") × (length path < max_job_file_name_size)
unfolding file_path
file_path-base directory_path name path h e =
    let whole = is_job-stem name h in
    let same : path ≡ directory_path ++ (b'/' ∷ name) = ground arith in
    (
      same
          ∙ (ap (λ t. directory_path ++ (b'/' ∷ t)) whole
              ∙ sym (append_assoc directory_path (b'/' ∷ stem name) (codes ".job"))),
      rw same (ground arith),
    )

out_path-base :
    (directory_path name path : Str)
    → is_job name ≡ true
    → file_path directory_path name ≡ some path
    → out_path path ≡ base directory_path name ++ codes ".out"
unfolding out_path base_path
out_path-base directory_path name path h e =
    let (whole, short) = file_path-base directory_path name path h e in
    let b = base directory_path name in
    let l : length path ≡ length b + 4 = ap length whole ∙ length-append b (codes ".job") in
    let cut : take (length path - 4) path ≡ b =
      ap (take (length path - 4)) whole
      ∙ take-field (length path - 4) b (codes ".job") (omega (arith, l)) in
    rw cut (
      snprintf-fits 260 (b ++ codes ".out")
        (omega (arith, l, short, length-append b (codes ".out"))))

-- Texts with one end and one length differ before it.
cancel_end : (xs ys zs : Str) → xs ++ zs ≡ ys ++ zs → xs ≡ ys
cancel_end xs ys zs e =
    let l : length xs ≡ length ys =
      omega (arith, ap length e, length-append xs zs, length-append ys zs) in
    sym (take-field (length xs) xs zs refl)
    ∙ (ap (take (length xs)) e ∙ take-field (length xs) ys zs (sym l))

cancel_start : (xs ys zs : Str) → xs ++ ys ≡ xs ++ zs → ys ≡ zs
cancel_start xs ys zs e =
    sym (drop-field (length xs) xs ys refl)
    ∙ (ap (drop (length xs)) e ∙ drop-field (length xs) xs zs refl)

base-injective :
    (directory_path a b : Str) → base directory_path a ≡ base directory_path b → stem a ≡ stem b
base-injective directory_path a b e =
    ap (drop 1) (cancel_start directory_path (b'/' ∷ stem a) (b'/' ∷ stem b) e)

-- No two job files of a directory have the same output file: entries that end in `.job`, whose paths fit
-- their arrays and lead to one output path, have one name.
pub out_path-injective :
    (directory_path a b path_a path_b : Str)
    → is_job a ≡ true
    → is_job b ≡ true
    → file_path directory_path a ≡ some path_a
    → file_path directory_path b ≡ some path_b
    → out_path path_a ≡ out_path path_b
    → a ≡ b
out_path-injective directory_path a b path_a path_b job_a job_b e_a e_b same =
    let outs =
      sym (out_path-base directory_path a path_a job_a e_a)
      ∙ (same ∙ out_path-base directory_path b path_b job_b e_b) in
    let bases = cancel_end (base directory_path a) (base directory_path b) (codes ".out") outs in
    let stems = base-injective directory_path a b bases in
    is_job-stem a job_a ∙ (ap (λ t. t ++ codes ".job") stems ∙ sym (is_job-stem b job_b))

decimal_text-injective :
    (m n : ℕ) → m < 2 ^ 32 → n < 2 ^ 32 → decimal_text m ≡ decimal_text n → m ≡ n
decimal_text-injective m n p q e =
    sym (decimal_text-Prints m p).stands ∙ (ap (decimal 0) e ∙ (decimal_text-Prints n q).stands)

backup_path-long :
    (path : Str) (number : ℕ)
    → number < 2 ^ 32
    → length path ≤ 240
    → backup_path path number ≡ base_path path ++ (b'-' ∷ decimal_text number ++ codes ".bck")
unfolding backup_path base_path
backup_path-long path number small short =
    let b = take (length path - 4) path in
    let digits = decimal_text number in
    snprintf-fits 256 (b ++ (b'-' ∷ digits ++ codes ".bck")) (
      omega (
        arith,
        short,
        (decimal_text-Prints number small).short,
        length-append b (b'-' ∷ digits ++ codes ".bck"),
        length-append digits (codes ".bck"),
        length-take (length path - 4) path,
      ))

-- No two backups of a job file, with different numbers below 2 ^ 32, have the same file, if its path has
-- 240 bytes at most.
pub backup_path-injective :
    (path : Str) (m n : ℕ)
    → length path ≤ 240
    → m < 2 ^ 32
    → n < 2 ^ 32
    → backup_path path m ≡ backup_path path n
    → m ≡ n
backup_path-injective path m n short p q e =
    let whole = sym (backup_path-long path m p short) ∙ (e ∙ backup_path-long path n q short) in
    let ends =
      cancel_start (base_path path) (b'-' ∷ decimal_text m ++ codes ".bck")
        (b'-' ∷ decimal_text n ++ codes ".bck") whole in
    decimal_text-injective m n p q
      (cancel_end (decimal_text m) (decimal_text n) (codes ".bck") (ap (drop 1) ends))
