-- ===== src/Parser/Digits.antt =====
-- server/io.c and server/parser.c: `parse_wait` reads the numbers that `write_uint` prints.
use ist_key_value_store.Prelude.{
  ℕ, zero, suc, ◌+◌, ◌*◌, ◌-◌, ◌/◌, ◌%◌, ◌^◌, ◌<◌, ◌≤◌, ◌≡◌, [], ◌∷◌, ◌++◌, none, some, Bool, false,
  pos, ◌==◌, ltb, arith, All, Bool-cases, inl, inr, length, if◌then◌else◌,
}
use native.Mathlib.Numerals.{unary_clauses}
use ist_key_value_store.CString.{Str}
use ist_key_value_store.Parser.{Input}
use ist_key_value_store.Parser.Number.{buffer_size, is_digit, read_digits, decimal, parse_wait}

-- The loop of `write_uint` for a number that is not negative: the digits of `value` in front of those that are in the buffer, for as many
-- rounds as the buffer has bytes.
unfoldable pub digit_loop : ℕ → ℕ → Str → Str
digit_loop zero value buffer = buffer
digit_loop (suc n) value buffer =
    let further = digit_loop n (value / 10) ((b'0' + value % 10) ∷ buffer) in
    if value == 0 then buffer else further

-- At least one digit is printed.
abbrev digits_or_zero : Str → Str
digits_or_zero [] = b'0' ∷ []
digits_or_zero (c ∷ cs) = c ∷ cs

-- The decimal digits of a number.
unfoldable pub decimal_text : ℕ → Str
unfolding digit_loop
decimal_text value = digits_or_zero (digit_loop buffer_size value [])

-- What `write_uint` writes for an `int`, given by its 32 bits: the loop does not run on a negative one.
unfoldable pub write_uint : ℕ → Str
unfolding digit_loop
write_uint value =
    digits_or_zero (if ltb value (2 ^ 31) then digit_loop buffer_size value [] else [])

abbrev pub AreDigits : Str → Type 0
AreDigits = All (λ c. (b'0' ≤ c) × (c ≤ b'9'))

pow_suc : (n : ℕ) → 10 ^ suc n ≡ 10 * 10 ^ n
pow_suc n = simp unary_clauses (omega arith)

digit_loop-AreDigits :
    (n value : ℕ) (buffer : Str) → AreDigits buffer → AreDigits (digit_loop n value buffer)
unfolding digit_loop
digit_loop-AreDigits zero value buffer h = h
digit_loop-AreDigits (suc n) value buffer h = elim (Bool-cases (value == 0)) [
  | inl none_left ↦ rw none_left h
  | inr some_left ↦ rw some_left (
      digit_loop-AreDigits n (value / 10) ((b'0' + value % 10) ∷ buffer)
        ((omega arith, omega arith), h))
]

-- The number that the digits stand for, with those in the buffer behind them.
decimal-digit_loop :
    (n value : ℕ) (buffer : Str)
    → value < 10 ^ n
    → decimal 0 (digit_loop n value buffer) ≡ decimal value buffer
unfolding decimal digit_loop
decimal-digit_loop zero value buffer h = ground arith
decimal-digit_loop (suc n) value buffer h =
    let d = b'0' + value % 10 in
    let same : 10 * (value / 10) + (d - b'0') ≡ value = omega arith in
    ground (
      arith,
      pow_suc n,
      same,
      decimal-digit_loop n (value / 10) (d ∷ buffer) (omega (arith, pow_suc n)),
    )

-- A number below `10 ^ m` has `m` digits at most.
length-digit_loop-le :
    (n m value : ℕ) (buffer : Str)
    → value < 10 ^ m
    → length (digit_loop n value buffer) ≤ m + length buffer
unfolding digit_loop
length-digit_loop-le zero m value buffer h = omega arith
length-digit_loop-le (suc n) zero value buffer h = ground arith
length-digit_loop-le (suc n) (suc m) value buffer h = ground (
  arith,
  length-digit_loop-le n m (value / 10) ((b'0' + value % 10) ∷ buffer) (omega (arith, pow_suc m)),
)

read_digits-text :
    (n : ℕ) (ds : Str) (ch : ℕ) (rest : Input)
    → AreDigits ds
    → is_digit ch ≡ false
    → length ds < n
    → read_digits n (ds ++ ch ∷ rest) ≡ some (ds, ch, rest)
unfolding read_digits
read_digits-text zero ds ch rest h e l = absurd (omega arith)
read_digits-text (suc n) [] ch rest h e l = ground arith
read_digits-text (suc n) (d ∷ ds) ch rest h e l =
    ground (arith, h.0, read_digits-text n ds ch rest h.1 e)

-- Digits, ten at most, that stand for the number.
pub record Prints (value : ℕ) (ds : Str) : Type 0 where
  pub digits : AreDigits ds
  pub short : length ds ≤ 10
  pub stands : decimal 0 ds ≡ value

pub decimal_text-Prints : (value : ℕ) → value < 2 ^ 32 → Prints value (decimal_text value)
unfolding decimal_text decimal
decimal_text-Prints value h =
    go (digit_loop buffer_size value []) (digit_loop-AreDigits buffer_size value [] tt)
      (decimal-digit_loop buffer_size value [] (omega arith))
      (length-digit_loop-le buffer_size 10 value [] (omega arith))
  where
    go :
        (ds : Str)
        → AreDigits ds
        → decimal 0 ds ≡ value
        → length ds ≤ 10
        → Prints value (digits_or_zero ds)
    go [] d e l = record {
      digits = ((omega arith, omega arith), tt);
      short = omega arith;
      stands = e;
    }
    go (c ∷ cs) d e l = record { digits = d; short = l; stands = e }

-- A delay below 2 ^ 32 in decimal digits, up to the end of the line, is read as that number.
pub parse_wait-decimal_text :
    (delay : ℕ) (wants_thread : Bool) (rest : Input)
    → delay < 2 ^ 32
    → parse_wait wants_thread (decimal_text delay ++ b'\n' ∷ rest)
      ≡ some (pos 0, some delay, none, rest)
unfolding parse_wait
parse_wait-decimal_text delay wants_thread rest h =
    let p = decimal_text-Prints delay h in
    ground (
      arith,
      p.stands,
      read_digits-text buffer_size (decimal_text delay) b'\n' rest p.digits (ground arith)
          (omega (arith, p.short)),
    )

-- A WAIT with a number that fits an `int` and is not negative, printed by `write_uint`, up to the end of
-- the line, stores that number as the delay, returns 0, and leaves what stands on the next lines; what
-- `write_uint` prints for a negative `int` is read as 0.
pub parse_wait-write_uint :
    (value : ℕ) (wants_thread : Bool) (rest : Input)
    → value < 2 ^ 32
    → parse_wait wants_thread (write_uint value ++ b'\n' ∷ rest)
      ≡ some (pos 0, some (if ltb value (2 ^ 31) then value else 0), none, rest)
unfolding write_uint decimal_text digit_loop
parse_wait-write_uint value wants_thread rest h = elim (Bool-cases (ltb value (2 ^ 31))) [
  | inl small ↦ rw small (parse_wait-decimal_text value wants_thread rest h)
  | inr negative ↦ rw negative (parse_wait-decimal_text 0 wants_thread rest (omega arith))
]
