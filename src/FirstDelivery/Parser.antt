-- ===== src/FirstDelivery/Parser.antt =====
-- proj_p1/parser.c, which is proj_p2/src/server/parser.c but for the layout.
use ist_key_value_store.Prelude.{ℕ, List, Option, Bool, ℤ}
use ist_key_value_store.CString.{Str}
use ist_key_value_store.Parser
use ist_key_value_store.Parser.{Input, Command}
use ist_key_value_store.Parser.Number
use ist_key_value_store.Parser.Number.{Wait}

abbrev pub read_string : ℕ → Input → ℤ × Str × Input
read_string = Parser.read_string

abbrev pub read_uint : Input → Option (Option ℕ × ℕ × Input)
read_uint = Number.read_uint

abbrev pub cleanup : Input → Input
cleanup = Parser.cleanup

abbrev pub get_next : Input → Command × Input
get_next = Parser.get_next

abbrev pub parse_pair : Input → Option (Str × Str) × Input
parse_pair = Parser.parse_pair

abbrev pub parse_write : ℕ → Input → List (Str × Str) × Input
parse_write = Parser.parse_write

abbrev pub parse_read_delete : ℕ → Input → List Str × Input
parse_read_delete = Parser.parse_read_delete

abbrev pub parse_wait : Bool → Input → Option Wait
parse_wait = Number.parse_wait
