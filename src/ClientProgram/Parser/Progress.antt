-- ===== src/ClientProgram/Parser/Progress.antt =====
-- client/parser.c: no function of the parser gives input back, and `get_next` takes some.
use ist_key_value_store.Prelude.{
  ℕ, zero, suc, ◌≤◌, ◌<◌, ◌≡◌, List, [], ◌∷◌, Option, none, some, ℤ, pos, negsuc, arith, length,
  drop, Bool-cases, Option-cases, inl, inr, ◌==◌, ◌&&◌, not,
}
use ist_key_value_store.CString.{Str, c_str}
use ist_key_value_store.Parser.{Input, max_string_size, expect}
use ist_key_value_store.Parser.Progress.{
  length-cleanup-le, length-drop-le, read_string-le, expect-le, list_end-le, when_expected-le,
}
use ist_key_value_store.Parser.Number.Progress.{read_uint-le}
use ist_key_value_store.ClientProgram.Parser.{
  Command, cmd_subscribe, cmd_unsubscribe, subscribe_text, keyword, disconnect_end,
  delay_or_disconnect, get_next, Keys, push_key, next_key, parse_keys, finish, parse_list,
  read_string, read_uint, parse_delay,
}

keyword-le :
    (text : Str) (command : Command) (input : Input)
    → length (keyword text command input).1 ≤ length input
unfolding keyword
keyword-le text command input =
    ground (arith, length-drop-le (length text) input, length-cleanup-le (drop (length text) input))

disconnect_end-le : (input : Input) → length (disconnect_end input).1 ≤ length input
unfolding disconnect_end
disconnect_end-le [] = omega arith
disconnect_end-le (ch ∷ input) = ground (arith, length-cleanup-le input)

delay_or_disconnect-le : (input : Input) → length (delay_or_disconnect input).1 ≤ length input
unfolding delay_or_disconnect
delay_or_disconnect-le input =
    let rest = drop 5 input in
    ground (
      arith,
      length-drop-le 5 input,
      length-drop-le 4 rest,
      length-cleanup-le (drop 4 rest),
      disconnect_end-le (drop 4 rest),
    )

-- Every call of `get_next` but the last takes at least one byte.
pub get_next-lt : (ch : ℕ) (input : Input) → length (get_next (ch ∷ input)).1 < length (ch ∷ input)
unfolding get_next
get_next-lt ch input = ground (
  arith,
  keyword-le subscribe_text cmd_subscribe input,
  keyword-le (b'N' ∷ b'S' ∷ subscribe_text) cmd_unsubscribe input,
  delay_or_disconnect-le input,
  length-cleanup-le input,
)

push_key-le : (key : Str) (r : Keys) → length (push_key key r).2 ≤ length r.2
push_key-le key (none, output, rest) = omega arith
push_key-le key (some keys, output, rest) = omega arith

next_key-le :
    (loop : Input → Keys) (r : ℤ × Str × Input)
    → ((input : Input) → length (loop input).2 ≤ length input)
    → length (next_key loop r).2 ≤ length r.2
unfolding next_key
next_key-le loop (negsuc _, key, rest) ih = length-cleanup-le rest
next_key-le loop (pos zero, key, rest) ih =
    omega (arith, push_key-le (c_str key) (loop rest), ih rest)
next_key-le loop (pos (suc zero), key, rest) ih = length-cleanup-le rest
next_key-le loop (pos (suc (suc _)), key, rest) ih = omega arith

parse_keys-le : (n output : ℕ) (input : Input) → length (parse_keys n output input).2 ≤ length input
unfolding parse_keys
parse_keys-le zero output input = omega arith
parse_keys-le (suc n) output input =
    let r = read_string max_string_size input in
    omega (
      arith,
      next_key-le (parse_keys n 0) r (parse_keys-le n 0),
      read_string-le max_string_size input,
    )

finish-le : (max : ℕ) (r : Keys) → length (finish max r).1 ≤ length r.2
unfolding finish
finish-le max (none, output, rest) = omega arith
finish-le max (some keys, output, rest) =
    elim (Bool-cases ((length keys == max) && not (output == 2))) [
      | inl full ↦ rw full (length-cleanup-le rest)
      | inr room ↦ rw room (list_end-le keys rest)
    ]

pub parse_list-le :
    (max_keys : ℕ) (input : Input) → length (parse_list max_keys input).1 ≤ length input
unfolding parse_list
parse_list-le max_keys input =
    let loop : Input → List Str × Input = λ rest. finish max_keys (parse_keys max_keys 2 rest) in
    let loop-le : (rest : Input) → length (loop rest).1 ≤ length rest = λ rest.
      omega
        (arith, finish-le max_keys (parse_keys max_keys 2 rest), parse_keys-le max_keys 2 rest) in
    omega (arith, when_expected-le (expect b'[' input) loop loop-le, expect-le b'[' input)

pub parse_delay-le :
    (input : Input) (r : Option ℕ × Input) → parse_delay input ≡ some r → length r.1 ≤ length input
unfolding parse_delay
parse_delay-le input r e = elim (Option-cases (read_uint input)) [
  | inl stuck ↦ ground arith
  | inr ((none, next, rest), found) ↦
      ground (arith, read_uint-le input (none, next, rest) found, length-cleanup-le rest)
  | inr ((some delay, next, rest), found) ↦
      ground (arith, read_uint-le input (some delay, next, rest) found)
]
