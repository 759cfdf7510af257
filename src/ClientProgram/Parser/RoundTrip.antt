-- ===== src/ClientProgram/Parser/RoundTrip.antt =====
-- client/parser.c reads back the command lines of a client.
use ist_key_value_store.Prelude.{
  ℕ, zero, suc, ◌≤◌, ◌<◌, ◌≡◌, refl, inl, inr, List, [], ◌∷◌, ◌++◌, some, arith, All, length,
}
use ist_key_value_store.CString.{Str, str_eq, strcmp}
use ist_key_value_store.Parser.{Input, max_string_size, cleanup}
use ist_key_value_store.Parser.RoundTrip.{IsToken, keys_text, read_string-token, c_str-plain}
use ist_key_value_store.ClientProgram.Parser.{
  Command, cmd_disconnect, cmd_subscribe, cmd_unsubscribe, cmd_delay, cmd_empty, cmd_invalid, eoc,
  subscribe_text, get_next, parse_keys, parse_list,
}

-- What `get_next` reads of each command; the arguments stand behind it.
abbrev pub command_text : Command → Str
command_text cmd_disconnect =
    b'D' ∷ b'I' ∷ b'S' ∷ b'C' ∷ b'O' ∷ b'N' ∷ b'N' ∷ b'E' ∷ b'C' ∷ b'T' ∷ b'\n' ∷ []
command_text cmd_subscribe = b'S' ∷ subscribe_text
command_text cmd_unsubscribe = b'U' ∷ b'N' ∷ b'S' ∷ subscribe_text
command_text cmd_delay = b'D' ∷ b'E' ∷ b'L' ∷ b'A' ∷ b'Y' ∷ b' ' ∷ []
command_text cmd_empty = b'\n' ∷ []
command_text cmd_invalid = b'?' ∷ b'\n' ∷ []
command_text eoc = []

-- `get_next` on the name of a command with anything behind it returns the command, and what is left is
-- what stood behind the name.
pub get_next-command_text :
    (command : Command) (rest : Input)
    → (command ≡ eoc → rest ≡ [])
    → get_next (command_text command ++ rest) ≡ (command, rest)
unfolding get_next str_eq strcmp cleanup
get_next-command_text cmd_disconnect rest h = refl
get_next-command_text cmd_subscribe rest h = refl
get_next-command_text cmd_unsubscribe rest h = refl
get_next-command_text cmd_delay rest h = refl
get_next-command_text cmd_empty rest h = refl
get_next-command_text cmd_invalid rest h = refl
get_next-command_text eoc rest h = rw (h refl) refl

parse_keys-text :
    (n output : ℕ) (k : Str) (ks : List Str) (tail : Input)
    → length ks < n
    → All IsToken (k ∷ ks)
    → parse_keys n output (keys_text (k ∷ ks) tail) ≡ (some (k ∷ ks), 2, tail)
unfolding parse_keys keys_text
parse_keys-text zero output k ks tail l h = absurd (omega arith)
parse_keys-text (suc n) output k [] tail l h = ground (
  arith,
  read_string-token max_string_size b']' 2 k tail (inr (inr (refl, refl))) h.0.plain h.0.short,
  c_str-plain k h.0.plain,
)
parse_keys-text (suc n) output k (j ∷ js) tail l h = ground (
  arith,
  read_string-token max_string_size b',' 0 k (keys_text (j ∷ js) tail) (inl (refl, refl)) h.0.plain
      h.0.short,
  c_str-plain k h.0.plain,
  parse_keys-text n 0 j js tail (omega arith) h.1,
)

-- A list of one to `max_keys` keys that are shorter than their arrays and hold no delimiter is read back
-- as those keys, up to the end of the line: unlike the parser of the server, this one takes a list that
-- fills the array.
pub parse_list-keys_text :
    (max_keys : ℕ) (k : Str) (ks : List Str) (rest : Input)
    → length (k ∷ ks) ≤ max_keys
    → All IsToken (k ∷ ks)
    → parse_list max_keys (b'[' ∷ keys_text (k ∷ ks) (b'\n' ∷ rest)) ≡ (k ∷ ks, rest)
unfolding parse_list
parse_list-keys_text max_keys k ks rest l h =
    ground (arith, parse_keys-text max_keys 2 k ks (b'\n' ∷ rest) (omega arith) h)
