-- ===== src/ClientProgram/Parser.antt =====
-- client/parser.c: the parser of a client's commands. The standard input is the list of the bytes that
-- are left, as the job files of Parser are: a `read` returns as many as it is asked for, or all that are
-- left. `read_string`, `read_uint` and `cleanup` are the code of server/parser.c once more.
pub mod RoundTrip
pub mod Progress
use ist_key_value_store.Prelude.{
  ℕ, zero, suc, List, [], ◌∷◌, ◌++◌, Option, none, some, Bool, true, false, ℤ, pos, negsuc, ◌==◌,
  ◌&&◌, not, length, take, drop, if◌then◌else◌,
}
use ist_key_value_store.CString.{Str, c_str, str_eq}
use ist_key_value_store.Parser
use ist_key_value_store.Parser.{Input, max_string_size, add, expect, when_expected, list_end}
use ist_key_value_store.Parser.Number

pub data Command : Type 0 where
  cmd_disconnect cmd_subscribe cmd_unsubscribe cmd_delay cmd_empty cmd_invalid eoc : Command

abbrev pub read_string : ℕ → Input → ℤ × Str × Input
read_string = Parser.read_string

abbrev pub read_uint : Input → Option (Option ℕ × ℕ × Input)
read_uint = Number.read_uint

abbrev pub cleanup : Input → Input
cleanup = Parser.cleanup

-- A command whose name and space are `text` behind its first letter.
unfoldable pub keyword : Str → Command → Input → Command × Input
keyword text command input =
    let rest = drop (length text) input in
    if str_eq (take (length text) input) text then (command, rest) else (cmd_invalid, cleanup rest)

-- The end of a line DISCONNECT; the end of the file is one.
unfoldable pub disconnect_end : Input → Command × Input
disconnect_end [] = (cmd_disconnect, [])
disconnect_end (ch ∷ input) =
    if ch == b'\n' then (cmd_disconnect, input) else (cmd_invalid, cleanup input)

-- `case 'D'`: DELAY, or DISCONNECT, of which four more letters are read.
unfoldable pub delay_or_disconnect : Input → Command × Input
unfolding disconnect_end
delay_or_disconnect input =
    let first = take 5 input in
    let rest = drop 5 input in
    if str_eq first (b'E' ∷ b'L' ∷ b'A' ∷ b'Y' ∷ b' ' ∷ [])
    then (cmd_delay, rest)
    else if str_eq (first ++ take 4 rest)
        (b'I' ∷ b'S' ∷ b'C' ∷ b'O' ∷ b'N' ∷ b'N' ∷ b'E' ∷ b'C' ∷ b'T' ∷ [])
    then disconnect_end (drop 4 rest)
    else (cmd_invalid, cleanup (drop 4 rest))

abbrev pub subscribe_text : Str
subscribe_text = b'U' ∷ b'B' ∷ b'S' ∷ b'C' ∷ b'R' ∷ b'I' ∷ b'B' ∷ b'E' ∷ b' ' ∷ []

unfoldable pub get_next : Input → Command × Input
unfolding keyword delay_or_disconnect
get_next [] = (eoc, [])
get_next (ch ∷ input) =
    if ch == b'S'
    then keyword subscribe_text cmd_subscribe input
    else if ch == b'U'
    then keyword (b'N' ∷ b'S' ∷ subscribe_text) cmd_unsubscribe input
    else if ch == b'D'
    then delay_or_disconnect input
    else if ch == b'#'
    then (cmd_empty, cleanup input)
    else if ch == b'\n'
    then (cmd_empty, input)
    else (cmd_invalid, cleanup input)

-- What the loop of `parse_list` leaves: the keys, `none` where the function returns 0; the last `output`;
-- the rest.
abbrev pub Keys : Type 0
Keys = Option (List Str) × ℕ × Input

abbrev pub push_key : Str → Keys → Keys
push_key key (none, output, rest) = (none, output, rest)
push_key key (some keys, output, rest) = (some (key ∷ keys), output, rest)

-- A round once `read_string` has returned.
unfoldable pub next_key : (Input → Keys) → ℤ × Str × Input → Keys
next_key loop (negsuc _, key, rest) = (none, 0, cleanup rest)
next_key loop (pos zero, key, rest) = push_key (c_str key) (loop rest)
next_key loop (pos (suc zero), key, rest) = (none, 1, cleanup rest)
next_key loop (pos (suc (suc _)), key, rest) = (some (c_str key ∷ []), 2, rest)

-- The loop with room for `n` more keys, when `output` was returned last.
unfoldable pub parse_keys : ℕ → ℕ → Input → Keys
unfolding next_key
parse_keys zero output input = (some [], output, input)
parse_keys (suc n) output input = next_key (parse_keys n 0) (read_string max_string_size input)

-- Behind the loop: a full array is refused unless the list has ended.
unfoldable pub finish : ℕ → Keys → List Str × Input
unfolding list_end
finish max (none, output, rest) = ([], rest)
finish max (some keys, output, rest) =
    if (length keys == max) && not (output == 2) then ([], cleanup rest) else list_end keys rest

unfoldable pub parse_list : ℕ → Input → List Str × Input
unfolding expect finish parse_keys
parse_list max_keys input =
    when_expected (expect b'[' input) λ rest. finish max_keys (parse_keys max_keys 2 rest)

-- What the function returns with the delay: `none` where it returns -1. The byte behind the number is
-- taken and not looked at.
unfoldable pub parse_delay : Input → Option (Option ℕ × Input)
parse_delay input = elim (read_uint input) [
  | none ↦ none
  | some (none, next, rest) ↦ some (none, cleanup rest)
  | some (some delay, next, rest) ↦ some (some delay, rest)
]
