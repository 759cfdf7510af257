-- ===== src/Parser/RoundTrip.antt =====
-- server/parser.c reads back the lists of a WRITE, READ or DELETE line.
use ist_key_value_store.Prelude.{
  ℕ, zero, suc, ◌<◌, ◌≡◌, ◌≢◌, ◌⊎◌, inl, inr, refl, List, [], ◌∷◌, ◌++◌, some, pos, arith, All,
  length,
}
use ist_key_value_store.CString.{Str, c_str}
use ist_key_value_store.Parser.{
  Input, read_string, parse_pair, parse_pairs, parse_write, parse_keys, parse_read_delete,
  max_string_size,
}

-- A byte that a key or a value may hold.
abbrev pub IsPlain : ℕ → Type 0
IsPlain c = (c ≢ 0) × (c ≢ b' ') × (c ≢ b',') × (c ≢ b')') × (c ≢ b']')

-- Such a string, short enough for its array.
pub record IsToken (s : Str) : Type 0 where
  pub plain : All IsPlain s
  pub short : length s < max_string_size

pub c_str-plain : (s : Str) → All IsPlain s → c_str s ≡ s
unfolding c_str
c_str-plain [] h = refl
c_str-plain (c ∷ s) h = ground (arith, c_str-plain s h.1)

-- A delimiter, and the value that `read_string` returns for it.
abbrev pub Ends : ℕ → ℕ → Type 0
Ends d v = ((d ≡ b',') × (v ≡ 0)) ⊎ ((d ≡ b')') × (v ≡ 1)) ⊎ ((d ≡ b']') × (v ≡ 2))

pub read_string-token :
    (n d v : ℕ) (s : Str) (rest : Input)
    → Ends d v
    → All IsPlain s
    → length s < n
    → read_string n (s ++ d ∷ rest) ≡ (pos v, s, rest)
unfolding read_string
read_string-token zero d v s rest del p l = absurd (omega arith)
read_string-token (suc n) d v [] rest del p l = ground arith
read_string-token (suc n) d v (c ∷ s) rest del p l =
    ground (arith, read_string-token n d v s rest del p.1)

-- The text of the pairs of a WRITE behind the first parenthesis, with `tail` behind it.
unfoldable pub pairs_text : List (Str × Str) → Input → Input
pairs_text [] tail = tail
pairs_text ((key, value) ∷ []) tail = key ++ (b',' ∷ value ++ (b')' ∷ b']' ∷ tail))
pairs_text ((key, value) ∷ p ∷ ps) tail =
    key ++ (b',' ∷ value ++ (b')' ∷ b'(' ∷ pairs_text (p ∷ ps) tail))

-- And of the keys of a READ or DELETE behind the bracket.
unfoldable pub keys_text : List Str → Input → Input
keys_text [] tail = tail
keys_text (key ∷ []) tail = key ++ (b']' ∷ tail)
keys_text (key ∷ k ∷ ks) tail = key ++ (b',' ∷ keys_text (k ∷ ks) tail)

abbrev pub AreTokens : List (Str × Str) → Type 0
AreTokens = All (λ p. IsToken p.0 × IsToken p.1)

parse_pair-token :
    (key value : Str) (rest : Input)
    → IsToken key
    → IsToken value
    → parse_pair (key ++ (b',' ∷ value ++ (b')' ∷ rest))) ≡ (some (key, value), rest)
unfolding parse_pair
parse_pair-token key value rest k v = ground (
  arith,
  read_string-token max_string_size b',' 0 key (value ++ (b')' ∷ rest)) (inl (refl, refl)) k.plain
      k.short,
  read_string-token max_string_size b')' 1 value rest (inr (inl (refl, refl))) v.plain v.short,
  c_str-plain key k.plain,
  c_str-plain value v.plain,
)

parse_pairs-text :
    (n : ℕ) (p : Str × Str) (ps : List (Str × Str)) (tail : Input)
    → length ps < n
    → AreTokens (p ∷ ps)
    → parse_pairs n (pairs_text (p ∷ ps) tail) ≡ (some (p ∷ ps), tail)
unfolding parse_pairs pairs_text
parse_pairs-text zero p ps tail l h = absurd (omega arith)
parse_pairs-text (suc n) (key, value) [] tail l h =
    ground (arith, parse_pair-token key value (b']' ∷ tail) h.0.0 h.0.1)
parse_pairs-text (suc n) (key, value) (q ∷ qs) tail l h = ground (
  arith,
  parse_pair-token key value (b'(' ∷ pairs_text (q ∷ qs) tail) h.0.0 h.0.1,
  parse_pairs-text n q qs tail (omega arith) h.1,
)

-- A WRITE line of at least one and fewer than `max_pairs` pairs, whose keys and values are shorter than
-- their arrays and hold no delimiter, is read back as those pairs, up to the end of the line.
pub parse_write-pairs_text :
    (max_pairs : ℕ) (p : Str × Str) (ps : List (Str × Str)) (rest : Input)
    → length (p ∷ ps) < max_pairs
    → AreTokens (p ∷ ps)
    → parse_write max_pairs (b'[' ∷ b'(' ∷ pairs_text (p ∷ ps) (b'\n' ∷ rest)) ≡ (p ∷ ps, rest)
unfolding parse_write
parse_write-pairs_text max_pairs p ps rest l h =
    ground (arith, parse_pairs-text max_pairs p ps (b'\n' ∷ rest) (omega arith) h)

parse_keys-text :
    (n : ℕ) (k : Str) (ks : List Str) (tail : Input)
    → length ks < n
    → All IsToken (k ∷ ks)
    → parse_keys n (keys_text (k ∷ ks) tail) ≡ (some (k ∷ ks), tail)
unfolding parse_keys keys_text
parse_keys-text zero k ks tail l h = absurd (omega arith)
parse_keys-text (suc n) k [] tail l h = ground (
  arith,
  read_string-token max_string_size b']' 2 k tail (inr (inr (refl, refl))) h.0.plain h.0.short,
  c_str-plain k h.0.plain,
)
parse_keys-text (suc n) k (j ∷ js) tail l h = ground (
  arith,
  read_string-token max_string_size b',' 0 k (keys_text (j ∷ js) tail) (inl (refl, refl)) h.0.plain
      h.0.short,
  c_str-plain k h.0.plain,
  parse_keys-text n j js tail (omega arith) h.1,
)

-- A READ or DELETE line of at least one and fewer than `max_keys` keys that are shorter than their
-- arrays and hold no delimiter is read back as those keys, up to the end of the line.
pub parse_read_delete-keys_text :
    (max_keys : ℕ) (k : Str) (ks : List Str) (rest : Input)
    → length (k ∷ ks) < max_keys
    → All IsToken (k ∷ ks)
    → parse_read_delete max_keys (b'[' ∷ keys_text (k ∷ ks) (b'\n' ∷ rest)) ≡ (k ∷ ks, rest)
unfolding parse_read_delete
parse_read_delete-keys_text max_keys k ks rest l h =
    ground (arith, parse_keys-text max_keys k ks (b'\n' ∷ rest) (omega arith) h)
