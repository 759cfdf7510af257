-- ===== src/Parser/Commands.antt =====
-- server/parser.c: `get_next` reads each command by its name.
use ist_key_value_store.Prelude.{◌≡◌, refl, [], ◌∷◌, ◌++◌}
use ist_key_value_store.CString.{Str, str_eq, strcmp}
use ist_key_value_store.Parser.{
  Input, Command, cmd_write, cmd_read, cmd_delete, cmd_show, cmd_wait, cmd_backup, cmd_help,
  cmd_empty, cmd_invalid, eoc, get_next, cleanup,
}

-- What `get_next` reads of each command; the arguments stand behind it.
abbrev pub command_text : Command → Str
command_text cmd_write = b'W' ∷ b'R' ∷ b'I' ∷ b'T' ∷ b'E' ∷ b' ' ∷ []
command_text cmd_read = b'R' ∷ b'E' ∷ b'A' ∷ b'D' ∷ b' ' ∷ []
command_text cmd_delete = b'D' ∷ b'E' ∷ b'L' ∷ b'E' ∷ b'T' ∷ b'E' ∷ b' ' ∷ []
command_text cmd_show = b'S' ∷ b'H' ∷ b'O' ∷ b'W' ∷ b'\n' ∷ []
command_text cmd_wait = b'W' ∷ b'A' ∷ b'I' ∷ b'T' ∷ b' ' ∷ []
command_text cmd_backup = b'B' ∷ b'A' ∷ b'C' ∷ b'K' ∷ b'U' ∷ b'P' ∷ b'\n' ∷ []
command_text cmd_help = b'H' ∷ b'E' ∷ b'L' ∷ b'P' ∷ b'\n' ∷ []
command_text cmd_empty = b'\n' ∷ []
command_text cmd_invalid = b'?' ∷ b'\n' ∷ []
command_text eoc = []

-- `get_next` on the name of a command with anything behind it returns the command, and what is left is
-- what stood behind the name.
pub get_next-command_text :
    (command : Command) (rest : Input)
    → (command ≡ eoc → rest ≡ [])
    → get_next (command_text command ++ rest) ≡ (command, rest)
unfolding get_next str_eq strcmp cleanup
get_next-command_text cmd_write rest h = refl
get_next-command_text cmd_read rest h = refl
get_next-command_text cmd_delete rest h = refl
get_next-command_text cmd_show rest h = refl
get_next-command_text cmd_wait rest h = refl
get_next-command_text cmd_backup rest h = refl
get_next-command_text cmd_help rest h = refl
get_next-command_text cmd_empty rest h = refl
get_next-command_text cmd_invalid rest h = refl
get_next-command_text eoc rest h = rw (h refl) refl
