-- ===== src/Parser/Number/Progress.antt =====
-- server/parser.c: `parse_wait` gives no input back.
use ist_key_value_store.Prelude.{
  ℕ, zero, suc, ◌≤◌, ◌≡◌, [], ◌∷◌, Option, none, some, false, arith, length, Bool-cases,
  Option-cases, inl, inr,
}
use ist_key_value_store.CString.{Str}
use ist_key_value_store.Parser.{Input}
use ist_key_value_store.Parser.Number.{
  read_digits, read_uint, after_delay, parse_wait, buffer_size, is_digit, Wait,
}
use ist_key_value_store.Parser.Progress.{length-cleanup-le}

read_digits-le :
    (n : ℕ) (input : Input) (r : Str × ℕ × Input)
    → read_digits n input ≡ some r
    → length r.2 ≤ length input
unfolding read_digits
read_digits-le zero input r e = absurd cc
read_digits-le (suc n) [] r e = absurd cc
read_digits-le (suc n) (ch ∷ input) r e = elim (Bool-cases (is_digit ch)) [
  | inr last ↦ ground arith
  | inl digit ↦ elim (Option-cases (read_digits n input)) [
    | inl stuck ↦ ground arith
    | inr (further, found) ↦ ground (arith, read_digits-le n input further found)
  ]
]

pub read_uint-le :
    (input : Input) (r : Option ℕ × ℕ × Input)
    → read_uint input ≡ some r
    → length r.2 ≤ length input
unfolding read_uint
read_uint-le input r e = elim (Option-cases (read_digits buffer_size input)) [
  | inl stuck ↦ ground arith
  | inr (d, found) ↦ ground (arith, read_digits-le buffer_size input d found)
]

after_delay-le :
    (r : Option ℕ × ℕ × Input) (w : Wait) → after_delay false r ≡ some w → length w.3 ≤ length r.2
unfolding after_delay
after_delay-le (none, ch, rest) w e = ground (arith, length-cleanup-le rest)
after_delay-le (some delay, ch, rest) w e = ground (arith, length-cleanup-le rest)

pub parse_wait-le :
    (input : Input) (w : Wait) → parse_wait false input ≡ some w → length w.3 ≤ length input
unfolding parse_wait
parse_wait-le input w e = elim (Option-cases (read_uint input)) [
  | inl stuck ↦ ground arith
  | inr (r, found) ↦ ground (arith, read_uint-le input r found, after_delay-le r w)
]
