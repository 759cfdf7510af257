-- ===== src/Parser/Progress.antt =====
-- server/parser.c: no function of the parser gives input back, and `get_next` takes some.
use ist_key_value_store.Prelude.{
  ℕ, zero, suc, ◌≤◌, ◌<◌, List, [], ◌∷◌, Option, none, some, Bool, true, false, ℤ, pos, negsuc,
  arith, length, drop, Bool-cases, inl, inr, ◌==◌, ◌||◌,
}
use ist_key_value_store.CString.{Str, c_str}
use ist_key_value_store.Parser.{
  Input, Command, cleanup, read_string, keyword, line_end, write_or_wait, get_next, parse_value,
  parse_key, parse_pair, expect, add, next_pair, parse_pairs, list_end, finish, when_expected,
  parse_write, next_key, parse_keys, parse_read_delete, max_string_size, cmd_read, cmd_delete,
  cmd_show, cmd_backup, cmd_help, cmd_invalid,
}

pub length-cleanup-le : (input : Input) → length (cleanup input) ≤ length input
unfolding cleanup
length-cleanup-le [] = omega arith
length-cleanup-le (ch ∷ input) = ground (arith, length-cleanup-le input)

pub length-drop-le : (n : ℕ) (input : Input) → length (drop n input) ≤ length input
length-drop-le zero input = omega arith
length-drop-le (suc n) [] = omega arith
length-drop-le (suc n) (ch ∷ input) = omega (arith, length-drop-le n input)

keyword-le :
    (text : Str) (command : Command) (input : Input)
    → length (keyword text command input).1 ≤ length input
unfolding keyword
keyword-le text command input =
    ground (arith, length-drop-le (length text) input, length-cleanup-le (drop (length text) input))

line_end-le :
    (command : Command) (input : Input) → length (line_end (command, input)).1 ≤ length input
unfolding line_end
line_end-le cmd_invalid input = omega arith
line_end-le _ [] = omega arith
line_end-le _ (ch ∷ input) = ground (arith, length-cleanup-le input)

write_or_wait-le : (input : Input) → length (write_or_wait input).1 ≤ length input
unfolding write_or_wait
write_or_wait-le input =
    let rest = drop 4 input in
    ground (arith, length-drop-le 4 input, length-drop-le 1 rest, length-cleanup-le (drop 1 rest))

-- Every call of `get_next` but the last takes at least one byte.
pub get_next-lt : (ch : ℕ) (input : Input) → length (get_next (ch ∷ input)).1 < length (ch ∷ input)
unfolding get_next
get_next-lt ch input = ground (
  arith,
  write_or_wait-le input,
  keyword-le (b'E' ∷ b'A' ∷ b'D' ∷ b' ' ∷ []) cmd_read input,
  keyword-le (b'E' ∷ b'L' ∷ b'E' ∷ b'T' ∷ b'E' ∷ b' ' ∷ []) cmd_delete input,
  name_line (b'H' ∷ b'O' ∷ b'W' ∷ []) cmd_show,
  name_line (b'A' ∷ b'C' ∷ b'K' ∷ b'U' ∷ b'P' ∷ []) cmd_backup,
  name_line (b'E' ∷ b'L' ∷ b'P' ∷ []) cmd_help,
  length-cleanup-le input,
)
  where
    name_line :
        (text : Str) (command : Command)
        → length (line_end (keyword text command input)).1 ≤ length input
    name_line text command =
        let r = keyword text command input in
        omega (arith, line_end-le r.0 r.1, keyword-le text command input)

pub read_string-le : (n : ℕ) (input : Input) → length (read_string n input).2 ≤ length input
unfolding read_string
read_string-le zero input = omega arith
read_string-le (suc n) [] = omega arith
read_string-le (suc n) (ch ∷ input) = ground (arith, read_string-le n input)

parse_value-le : (key : Str) (r : ℤ × Str × Input) → length (parse_value key r).1 ≤ length r.2
unfolding parse_value
parse_value-le key (negsuc _, value, rest) = length-cleanup-le rest
parse_value-le key (pos zero, value, rest) = length-cleanup-le rest
parse_value-le key (pos (suc zero), value, rest) = omega arith
parse_value-le key (pos (suc (suc _)), value, rest) = length-cleanup-le rest

parse_key-le : (r : ℤ × Str × Input) → length (parse_key r).1 ≤ length r.2
unfolding parse_key
parse_key-le (negsuc _, key, rest) = length-cleanup-le rest
parse_key-le (pos zero, key, rest) =
    let r = read_string max_string_size rest in
    omega (arith, parse_value-le key r, read_string-le max_string_size rest)
parse_key-le (pos (suc _), key, rest) = length-cleanup-le rest

parse_pair-le : (input : Input) → length (parse_pair input).1 ≤ length input
unfolding parse_pair
parse_pair-le input =
    omega (
      arith,
      parse_key-le (read_string max_string_size input),
      read_string-le max_string_size input,
    )

add-le {ℓ} : {A : Type ℓ} (x : A) (r : Option (List A) × Input) → length (add x r).1 ≤ length r.1
add-le x (none, rest) = omega arith
add-le x (some xs, rest) = omega arith

next_pair-le :
    (loop : Input → Option (List (Str × Str)) × Input) (r : Option (Str × Str) × Input)
    → ((input : Input) → length (loop input).1 ≤ length input)
    → length (next_pair loop r).1 ≤ length r.1
unfolding next_pair
next_pair-le loop (none, rest) ih = length-cleanup-le rest
next_pair-le loop (some pair, []) ih = omega arith
next_pair-le loop (some pair, ch ∷ rest) ih =
    ground (arith, length-cleanup-le rest, add-le pair (loop rest), ih rest)

parse_pairs-le : (n : ℕ) (input : Input) → length (parse_pairs n input).1 ≤ length input
unfolding parse_pairs
parse_pairs-le zero input = omega arith
parse_pairs-le (suc n) input =
    omega (
      arith,
      next_pair-le (parse_pairs n) (parse_pair input) (parse_pairs-le n),
      parse_pair-le input,
    )

pub expect-le : (ch : ℕ) (input : Input) → length (expect ch input).1 ≤ length input
unfolding expect
expect-le ch [] = omega arith
expect-le ch (c ∷ rest) = ground (arith, length-cleanup-le rest)

pub list_end-le {ℓ} :
    {A : Type ℓ} (xs : List A) (input : Input) → length (list_end xs input).1 ≤ length input
unfolding list_end
list_end-le xs [] = omega arith
list_end-le xs (ch ∷ rest) = elim (Bool-cases (ch == b'\n' || ch == 0)) [
  | inl good ↦ rw good (omega arith)
  | inr bad ↦ rw bad (omega (arith, length-cleanup-le rest))
]

finish-le {ℓ} :
    {A : Type ℓ} (max : ℕ) (r : Option (List A) × Input) → length (finish max r).1 ≤ length r.1
unfolding finish
finish-le max (none, rest) = omega arith
finish-le max (some xs, rest) = elim (Bool-cases (length xs == max)) [
  | inl full ↦ rw full (length-cleanup-le rest)
  | inr room ↦ rw room (list_end-le xs rest)
]

pub when_expected-le {ℓ} :
    {A : Type ℓ} (r : Bool × Input) (f : Input → List A × Input)
    → ((input : Input) → length (f input).1 ≤ length input)
    → length (when_expected r f).1 ≤ length r.1
when_expected-le (false, rest) f h = omega arith
when_expected-le (true, rest) f h = h rest

finish_pairs-le :
    (max_pairs : ℕ) (input : Input)
    → length (finish max_pairs (parse_pairs max_pairs input)).1 ≤ length input
finish_pairs-le max_pairs input =
    let r = parse_pairs max_pairs input in
    omega (arith, finish-le max_pairs r, parse_pairs-le max_pairs input)

pub parse_write-le :
    (max_pairs : ℕ) (input : Input) → length (parse_write max_pairs input).1 ≤ length input
unfolding parse_write
parse_write-le max_pairs input =
    let loop : Input → List (Str × Str) × Input =
      λ rest. finish max_pairs (parse_pairs max_pairs rest) in
    let inner : Input → List (Str × Str) × Input = λ rest. when_expected (expect b'(' rest) loop in
    let inner-le : (rest : Input) → length (inner rest).1 ≤ length rest = λ rest. omega (
      arith,
      when_expected-le (expect b'(' rest) loop (finish_pairs-le max_pairs),
      expect-le b'(' rest,
    ) in
    omega (arith, when_expected-le (expect b'[' input) inner inner-le, expect-le b'[' input)

next_key-le :
    (loop : Input → Option (List Str) × Input) (r : ℤ × Str × Input)
    → ((input : Input) → length (loop input).1 ≤ length input)
    → length (next_key loop r).1 ≤ length r.2
unfolding next_key
next_key-le loop (negsuc _, key, rest) ih = length-cleanup-le rest
next_key-le loop (pos zero, key, rest) ih = omega (arith, add-le (c_str key) (loop rest), ih rest)
next_key-le loop (pos (suc zero), key, rest) ih = length-cleanup-le rest
next_key-le loop (pos (suc (suc _)), key, rest) ih = omega arith

parse_keys-le : (n : ℕ) (input : Input) → length (parse_keys n input).1 ≤ length input
unfolding parse_keys
parse_keys-le zero input = omega arith
parse_keys-le (suc n) input =
    let r = read_string max_string_size input in
    omega
      (arith, next_key-le (parse_keys n) r (parse_keys-le n), read_string-le max_string_size input)

finish_keys-le :
    (max_keys : ℕ) (input : Input)
    → length (finish max_keys (parse_keys max_keys input)).1 ≤ length input
finish_keys-le max_keys input =
    let r = parse_keys max_keys input in
    omega (arith, finish-le max_keys r, parse_keys-le max_keys input)

pub parse_read_delete-le :
    (max_keys : ℕ) (input : Input) → length (parse_read_delete max_keys input).1 ≤ length input
unfolding parse_read_delete
parse_read_delete-le max_keys input =
    let loop : Input → List Str × Input = λ rest. finish max_keys (parse_keys max_keys rest) in
    omega (
      arith,
      when_expected-le (expect b'[' input) loop (finish_keys-le max_keys),
      expect-le b'[' input,
    )
