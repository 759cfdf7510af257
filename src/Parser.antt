-- ===== src/Parser.antt =====
-- proj_p2/src/server/parser.c: the parser of job files. A job file is the list of the bytes that are
-- left to read; `read` of a regular file returns as many as it is asked for, or all that are left.
pub mod RoundTrip
pub mod Bounds
pub mod Commands
pub mod Number
pub mod Digits
pub mod Progress
use ist_key_value_store.Prelude.{
  ℕ, zero, suc, ◌+◌, List, [], ◌∷◌, ◌++◌, Option, none, some, Bool, true, false, ℤ, pos, negsuc,
  ◌==◌, ◌||◌, length, take, drop, if◌then◌else◌,
}
use ist_key_value_store.CString.{Str, c_str, str_eq}

abbrev pub Input : Type 0
Input = List ℕ

pub data Command : Type 0 where
  cmd_write cmd_read cmd_delete cmd_show cmd_wait cmd_backup cmd_help cmd_empty cmd_invalid eoc :
      Command

-- The rest of the line is skipped.
unfoldable pub cleanup : Input → Input
cleanup [] = []
cleanup (ch ∷ input) = if ch == b'\n' then input else cleanup input

-- The loop of `read_string` with room for `n` more bytes: the value that it returns, what is in the
-- buffer, and what is left of the file.
unfoldable pub read_string : ℕ → Input → ℤ × Str × Input
read_string zero input = (negsuc 0, [], input)
read_string (suc n) [] = (negsuc 0, [], [])
read_string (suc n) (ch ∷ input) =
    let (value, buffer, rest) = read_string n input in
    if ch == b' '
    then (negsuc 0, [], input)
    else if ch == b','
    then (pos 0, [], input)
    else if ch == b')'
    then (pos 1, [], input)
    else if ch == b']'
    then (pos 2, [], input)
    else (value, ch ∷ buffer, rest)

-- A command whose name and space, or name alone, is `text` behind its first letter.
unfoldable pub keyword : Str → Command → Input → Command × Input
keyword text command input =
    let rest = drop (length text) input in
    if str_eq (take (length text) input) text then (command, rest) else (cmd_invalid, cleanup rest)

-- The end of a line that holds nothing but a command's name; the end of the file is one.
unfoldable pub line_end : Command × Input → Command × Input
line_end (cmd_invalid, input) = (cmd_invalid, input)
line_end (command, []) = (command, [])
line_end (command, ch ∷ input) =
    if ch == b'\n' then (command, input) else (cmd_invalid, cleanup input)

-- `case 'W'`: WAIT, or WRITE, which is one letter longer.
unfoldable pub write_or_wait : Input → Command × Input
write_or_wait input =
    let first = take 4 input in
    let rest = drop 4 input in
    if str_eq first (b'A' ∷ b'I' ∷ b'T' ∷ b' ' ∷ [])
    then (cmd_wait, rest)
    else if str_eq (first ++ take 1 rest) (b'R' ∷ b'I' ∷ b'T' ∷ b'E' ∷ b' ' ∷ [])
    then (cmd_write, drop 1 rest)
    else (cmd_invalid, cleanup (drop 1 rest))

unfoldable pub get_next : Input → Command × Input
unfolding keyword line_end write_or_wait
get_next [] = (eoc, [])
get_next (ch ∷ input) =
    if ch == b'W'
    then write_or_wait input
    else if ch == b'R'
    then keyword (b'E' ∷ b'A' ∷ b'D' ∷ b' ' ∷ []) cmd_read input
    else if ch == b'D'
    then keyword (b'E' ∷ b'L' ∷ b'E' ∷ b'T' ∷ b'E' ∷ b' ' ∷ []) cmd_delete input
    else if ch == b'S'
    then line_end (keyword (b'H' ∷ b'O' ∷ b'W' ∷ []) cmd_show input)
    else if ch == b'B'
    then line_end (keyword (b'A' ∷ b'C' ∷ b'K' ∷ b'U' ∷ b'P' ∷ []) cmd_backup input)
    else if ch == b'H'
    then line_end (keyword (b'E' ∷ b'L' ∷ b'P' ∷ []) cmd_help input)
    else if ch == b'#'
    then (cmd_empty, cleanup input)
    else if ch == b'\n'
    then (cmd_empty, input)
    else (cmd_invalid, cleanup input)

abbrev pub max_string_size : ℕ
max_string_size = 40

-- What `parse_pair` does with the value: `read_string` must have stopped at `)`.
unfoldable pub parse_value : Str → ℤ × Str × Input → Option (Str × Str) × Input
parse_value key (pos (suc zero), value, rest) = (some (c_str key, c_str value), rest)
parse_value key (_, value, rest) = (none, cleanup rest)

-- And with the key: it must have stopped at `,`.
unfoldable pub parse_key : ℤ × Str × Input → Option (Str × Str) × Input
unfolding parse_value
parse_key (pos zero, key, rest) = parse_value key (read_string max_string_size rest)
parse_key (_, key, rest) = (none, cleanup rest)

unfoldable pub parse_pair : Input → Option (Str × Str) × Input
unfolding parse_key
parse_pair input = parse_key (read_string max_string_size input)

-- One byte that must be `ch`; the rest of the line is skipped behind any other.
unfoldable pub expect : ℕ → Input → Bool × Input
expect ch [] = (false, [])
expect ch (c ∷ rest) = if c == ch then (true, rest) else (false, cleanup rest)

abbrev pub add {ℓ} : {A : Type ℓ} → A → Option (List A) × Input → Option (List A) × Input
add x (none, rest) = (none, rest)
add x (some xs, rest) = (some (x ∷ xs), rest)

-- A round of `parse_write` once `parse_pair` has returned: on a failure the line is skipped once more,
-- behind what `parse_pair` has skipped.
unfoldable pub next_pair :
    (Input → Option (List (Str × Str)) × Input)
    → Option (Str × Str) × Input
    → Option (List (Str × Str)) × Input
next_pair loop (none, rest) = (none, cleanup rest)
next_pair loop (some pair, []) = (none, [])
next_pair loop (some pair, ch ∷ rest) =
    if ch == b']'
    then (some (pair ∷ []), rest)
    else if ch == b'('
    then add pair (loop rest)
    else (none, cleanup rest)

-- The loop of `parse_write` with room for `n` more pairs; `none` where the function returns 0.
unfoldable pub parse_pairs : ℕ → Input → Option (List (Str × Str)) × Input
unfolding next_pair
parse_pairs zero input = (some [], input)
parse_pairs (suc n) input = next_pair (parse_pairs n) (parse_pair input)

-- The byte behind the list: the end of the line, or a NUL.
unfoldable pub list_end {ℓ} : {A : Type ℓ} → List A → Input → List A × Input
list_end xs [] = ([], [])
list_end xs (ch ∷ rest) = if ch == b'\n' || ch == 0 then (xs, rest) else ([], cleanup rest)

-- Behind the loop: a full array is refused, and 0, the empty list, is returned on a failure.
unfoldable pub finish {ℓ} : {A : Type ℓ} → ℕ → Option (List A) × Input → List A × Input
unfolding list_end
finish max (none, rest) = ([], rest)
finish max (some xs, rest) = if length xs == max then ([], cleanup rest) else list_end xs rest

abbrev pub when_expected {ℓ} :
    {A : Type ℓ} → Bool × Input → (Input → List A × Input) → List A × Input
when_expected (false, rest) f = ([], rest)
when_expected (true, rest) f = f rest

unfoldable pub parse_write : ℕ → Input → List (Str × Str) × Input
unfolding expect finish parse_pairs
parse_write max_pairs input =
    when_expected (expect b'[' input) λ rest.
      when_expected (expect b'(' rest) λ rest'. finish max_pairs (parse_pairs max_pairs rest')

-- A round of `parse_read_delete` once `read_string` has returned.
unfoldable pub next_key :
    (Input → Option (List Str) × Input) → ℤ × Str × Input → Option (List Str) × Input
next_key loop (negsuc _, key, rest) = (none, cleanup rest)
next_key loop (pos zero, key, rest) = add (c_str key) (loop rest)
next_key loop (pos (suc zero), key, rest) = (none, cleanup rest)
next_key loop (pos (suc (suc _)), key, rest) = (some (c_str key ∷ []), rest)

unfoldable pub parse_keys : ℕ → Input → Option (List Str) × Input
unfolding next_key
parse_keys zero input = (some [], input)
parse_keys (suc n) input = next_key (parse_keys n) (read_string max_string_size input)

unfoldable pub parse_read_delete : ℕ → Input → List Str × Input
unfolding expect finish parse_keys
parse_read_delete max_keys input =
    when_expected (expect b'[' input) λ rest. finish max_keys (parse_keys max_keys rest)
