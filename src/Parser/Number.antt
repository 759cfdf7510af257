-- ===== src/Parser/Number.antt =====
-- server/parser.c: `read_uint` and `parse_wait`. `none` is undefined behaviour: the digits overflow the
-- 16 bytes of the buffer, or the file ends behind them, where the buffer has no final NUL for `strtoul`.
pub mod Progress
use ist_key_value_store.Prelude.{
  ℕ, zero, suc, ◌+◌, ◌*◌, ◌-◌, ◌^◌, [], ◌∷◌, Option, none, some, Bool, ℤ, pos, negsuc, ltb, leb,
  ◌&&◌, ◌||◌, ◌==◌, if◌then◌else◌,
}
use ist_key_value_store.CString.{Str}
use ist_key_value_store.Parser.{Input, cleanup}

-- The size of `buf`.
abbrev pub buffer_size : ℕ
buffer_size = 16

abbrev pub is_digit : ℕ → Bool
is_digit c = leb b'0' c && leb c b'9'

-- A byte put in front of the digits behind it.
abbrev pub push_digit : ℕ → Option (Str × ℕ × Input) → Option (Str × ℕ × Input)
push_digit c none = none
push_digit c (some (digits, next, rest)) = some (c ∷ digits, next, rest)

-- The loop with room for `n` more bytes: the digits, the byte behind them, and what is left.
unfoldable pub read_digits : ℕ → Input → Option (Str × ℕ × Input)
read_digits zero input = none
read_digits (suc n) [] = none
read_digits (suc n) (ch ∷ rest) =
    let further = read_digits n rest in
    if is_digit ch then push_digit ch further else some ([], ch, rest)

-- `strtoul` in base 10 on digits, from the value of those before.
unfoldable pub decimal : ℕ → Str → ℕ
decimal value [] = value
decimal value (c ∷ cs) = decimal (10 * value + (c - b'0')) cs

-- What `read_uint` delivers: the number, unless it exceeds UINT_MAX, the byte behind it, and what is left.
abbrev pub checked : Str × ℕ × Input → Option ℕ × ℕ × Input
checked (digits, next, rest) =
    ((if ltb (decimal 0 digits) (2 ^ 32) then some (decimal 0 digits) else none), next, rest)

unfoldable pub read_uint : Input → Option (Option ℕ × ℕ × Input)
unfolding read_digits decimal
read_uint input = elim (read_digits buffer_size input) [ none ↦ none | some r ↦ some (checked r) ]

abbrev pub is_end : ℕ → Bool
is_end ch = ch == b'\n' || ch == 0

-- What `parse_wait` returns: the status, the delay and the thread where they were stored, and the rest.
abbrev pub Wait : Type 0
Wait = ℤ × Option ℕ × Option ℕ × Input

-- The second number.
unfoldable pub parse_thread : ℕ → Option ℕ × ℕ × Input → Wait
parse_thread delay (none, ch, rest) = (negsuc 0, some delay, none, cleanup rest)
parse_thread delay (some thread_id, ch, rest) =
    if is_end ch
    then (pos 1, some delay, some thread_id, rest)
    else (negsuc 0, some delay, some thread_id, cleanup rest)

-- What is done once the first number is read; `wants_thread` is whether `thread_id` is not NULL.
unfoldable pub after_delay : Bool → Option ℕ × ℕ × Input → Option Wait
unfolding read_uint parse_thread
after_delay wants_thread (none, ch, rest) = some (negsuc 0, none, none, cleanup rest)
after_delay wants_thread (some delay, ch, rest) =
    if ch == b' '
    then (if wants_thread
        then (elim (read_uint rest) [ none ↦ none | some r ↦ some (parse_thread delay r) ])
        else some (pos 0, some delay, none, cleanup rest))
    else if is_end ch
    then some (pos 0, some delay, none, rest)
    else some (negsuc 0, some delay, none, cleanup rest)

unfoldable pub parse_wait : Bool → Input → Option Wait
unfolding read_uint after_delay
parse_wait wants_thread input = elim (read_uint input) [
  | none ↦ none
  | some r ↦ after_delay wants_thread r
]
