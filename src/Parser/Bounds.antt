-- ===== src/Parser/Bounds.antt =====
-- server/parser.c: what the parser accepts fits the arrays that it is copied to.
use ist_key_value_store.Prelude.{
  ℕ, zero, suc, ◌≤◌, ◌<◌, ◌≡◌, ◌⊎◌, inl, inr, refl, List, [], ◌∷◌, some, none, Option, ℤ, pos,
  negsuc, arith, All, length, ◌==◌, Bool-cases, ◌||◌, true, false, Bool,
}
use ist_key_value_store.CString.{Str, c_str}
use ist_key_value_store.Parser.{
  Input, read_string, next_key, parse_keys, parse_read_delete, max_string_size, add, finish, expect,
  when_expected, parse_value, parse_key, parse_pair, next_pair, parse_pairs, parse_write,
}

pub length-c_str-le : (s : Str) → length (c_str s) ≤ length s
unfolding c_str
length-c_str-le [] = omega arith
length-c_str-le (c ∷ s) = ground (arith, length-c_str-le s)

-- A string that `read_string` accepts leaves room for the final NUL.
pub length-read_string-lt :
    (n v : ℕ) (input : Input) → (read_string n input).0 ≡ pos v → length (read_string n input).1 < n
unfolding read_string
length-read_string-lt zero v input h = ground arith
length-read_string-lt (suc n) v [] h = ground arith
length-read_string-lt (suc n) v (c ∷ input) h = ground (arith, length-read_string-lt n v input)

abbrev pub Fits : Str → Type 0
Fits s = length s < max_string_size

abbrev pub PairFits : Str × Str → Type 0
PairFits p = Fits p.0 × Fits p.1

-- What a parsing loop with room for `n` more entries delivers, where it does not fail.
abbrev FitsAll {ℓ} : {A : Type ℓ} → (A → Type 0) → ℕ → Option (List A) → Type 0
FitsAll P n none = Unit
FitsAll P n (some xs) = All P xs × (length xs ≤ n)

add-FitsAll {ℓ} :
    {A : Type ℓ} (P : A → Type 0) (n : ℕ) (x : A) (o : Option (List A)) (rest : Input)
    → P x
    → FitsAll P n o
    → FitsAll P (suc n) (add x (o, rest)).0
add-FitsAll P n x none rest p h = tt
add-FitsAll P n x (some xs) rest p h = ((p, h.0), omega (arith, h.1))

next_key-FitsAll :
    (n : ℕ) (r : ℤ × Str × Input) (loop : Input → Option (List Str) × Input)
    → ((v : ℕ) → r.0 ≡ pos v → Fits r.1)
    → ((input : Input) → FitsAll Fits n (loop input).0)
    → FitsAll Fits (suc n) (next_key loop r).0
unfolding next_key
next_key-FitsAll n (negsuc _, key, rest) loop fits ih = tt
next_key-FitsAll n (pos zero, key, rest) loop fits ih =
    add-FitsAll Fits n (c_str key) (loop rest).0 (loop rest).1
      (omega (arith, length-c_str-le key, fits 0 refl)) (ih rest)
next_key-FitsAll n (pos (suc zero), key, rest) loop fits ih = tt
next_key-FitsAll n (pos (suc (suc v)), key, rest) loop fits ih =
    ((omega (arith, length-c_str-le key, fits (suc (suc v)) refl), tt), omega arith)

parse_keys-FitsAll : (n : ℕ) (input : Input) → FitsAll Fits n (parse_keys n input).0
unfolding parse_keys
parse_keys-FitsAll zero input = (tt, omega arith)
parse_keys-FitsAll (suc n) input =
    next_key-FitsAll n (read_string max_string_size input) (parse_keys n)
      (λ v e. length-read_string-lt max_string_size v input e) (parse_keys-FitsAll n)

finish-Fits {ℓ} :
    {A : Type ℓ} (P : A → Type 0) (max : ℕ) (o : Option (List A)) (rest : Input)
    → FitsAll P max o
    → All P (finish max (o, rest)).0
      × ((length (finish max (o, rest)).0 ≡ 0) ⊎ (length (finish max (o, rest)).0 < max))
unfolding finish
finish-Fits P max none rest h = (tt, inl refl)
finish-Fits P max (some xs) [] h = elim (Bool-cases (length xs == max)) [
  | inl full ↦ rw full (tt, inl refl)
  | inr room ↦ rw room (tt, inl refl)
]
finish-Fits P max (some xs) (ch ∷ rest) h = elim (Bool-cases (length xs == max)) [
  | inl full ↦ rw full (tt, inl refl)
  | inr room ↦ elim (Bool-cases (ch == b'\n' || ch == 0)) [
    | inl good ↦ rw (room, good) (h.0, inr (ground arith))
    | inr bad ↦ rw (room, bad) (tt, inl refl)
  ]
]

abbrev pub InBounds {ℓ} : {A : Type ℓ} → (A → Type 0) → ℕ → List A → Type 0
InBounds P max xs = All P xs × ((length xs ≡ 0) ⊎ (length xs < max))

-- Whatever the input, the keys that `parse_read_delete` returns fit their arrays with the final NUL,
-- and there are fewer than `max_keys`, or none.
pub parse_read_delete_bounds :
    (max_keys : ℕ) (input : Input) → InBounds Fits max_keys (parse_read_delete max_keys input).0
unfolding parse_read_delete
parse_read_delete_bounds max_keys input = go (expect b'[' input)
  where
    go :
        (r : Bool × Input)
        → InBounds Fits max_keys
            (when_expected r (λ rest. finish max_keys (parse_keys max_keys rest))).0
    go (false, rest) = (tt, inl refl)
    go (true, rest) =
        finish-Fits Fits max_keys (parse_keys max_keys rest).0 (parse_keys max_keys rest).1
          (parse_keys-FitsAll max_keys rest)

abbrev OptionFits : Option (Str × Str) → Type 0
OptionFits none = Unit
OptionFits (some p) = PairFits p

parse_value-OptionFits :
    (key : Str) (r : ℤ × Str × Input)
    → Fits key
    → ((v : ℕ) → r.0 ≡ pos v → Fits r.1)
    → OptionFits (parse_value key r).0
unfolding parse_value
parse_value-OptionFits key (negsuc _, value, rest) k fits = tt
parse_value-OptionFits key (pos zero, value, rest) k fits = tt
parse_value-OptionFits key (pos (suc zero), value, rest) k fits =
    (omega (arith, length-c_str-le key), omega (arith, length-c_str-le value, fits 1 refl))
parse_value-OptionFits key (pos (suc (suc _)), value, rest) k fits = tt

parse_key-OptionFits :
    (r : ℤ × Str × Input) → ((v : ℕ) → r.0 ≡ pos v → Fits r.1) → OptionFits (parse_key r).0
unfolding parse_key
parse_key-OptionFits (negsuc _, key, rest) fits = tt
parse_key-OptionFits (pos zero, key, rest) fits =
    parse_value-OptionFits key (read_string max_string_size rest) (fits 0 refl)
      (λ v e. length-read_string-lt max_string_size v rest e)
parse_key-OptionFits (pos (suc _), key, rest) fits = tt

parse_pair-OptionFits : (input : Input) → OptionFits (parse_pair input).0
unfolding parse_pair
parse_pair-OptionFits input =
    parse_key-OptionFits (read_string max_string_size input)
      (λ v e. length-read_string-lt max_string_size v input e)

next_pair-FitsAll :
    (n : ℕ) (r : Option (Str × Str) × Input) (loop : Input → Option (List (Str × Str)) × Input)
    → OptionFits r.0
    → ((input : Input) → FitsAll PairFits n (loop input).0)
    → FitsAll PairFits (suc n) (next_pair loop r).0
unfolding next_pair
next_pair-FitsAll n (none, rest) loop fits ih = tt
next_pair-FitsAll n (some pair, []) loop fits ih = tt
next_pair-FitsAll n (some pair, ch ∷ rest) loop fits ih = elim (Bool-cases (ch == b']')) [
  | inl last ↦ rw last ((fits, tt), omega arith)
  | inr more ↦ elim (Bool-cases (ch == b'(')) [
    | inl next ↦
        rw (more, next) (add-FitsAll PairFits n pair (loop rest).0 (loop rest).1 fits (ih rest))
    | inr bad ↦ rw (more, bad) tt
  ]
]

parse_pairs-FitsAll : (n : ℕ) (input : Input) → FitsAll PairFits n (parse_pairs n input).0
unfolding parse_pairs
parse_pairs-FitsAll zero input = (tt, omega arith)
parse_pairs-FitsAll (suc n) input =
    next_pair-FitsAll n (parse_pair input) (parse_pairs n) (parse_pair-OptionFits input)
      (parse_pairs-FitsAll n)

-- Whatever the input, the keys and values that `parse_write` returns fit their arrays with the final
-- NUL, and there are fewer than `max_pairs` pairs, or none.
pub parse_write_bounds :
    (max_pairs : ℕ) (input : Input) → InBounds PairFits max_pairs (parse_write max_pairs input).0
unfolding parse_write
parse_write_bounds max_pairs input = bracket (expect b'[' input)
  where
    loop : Input → List (Str × Str) × Input
    loop rest = finish max_pairs (parse_pairs max_pairs rest)

    parenthesis : (r : Bool × Input) → InBounds PairFits max_pairs (when_expected r loop).0
    parenthesis (false, rest) = (tt, inl refl)
    parenthesis (true, rest) =
        finish-Fits PairFits max_pairs (parse_pairs max_pairs rest).0 (parse_pairs max_pairs rest).1
          (parse_pairs-FitsAll max_pairs rest)

    bracket :
        (r : Bool × Input)
        → InBounds PairFits max_pairs
            (when_expected r (λ rest. when_expected (expect b'(' rest) loop)).0
    bracket (false, rest) = (tt, inl refl)
    bracket (true, rest) = parenthesis (expect b'(' rest)
