-- ===== src/CString.antt =====
-- C strings as lists of their bytes without the final NUL, and what the program uses of
-- <string.h>, <ctype.h> and <stdio.h> on them.
pub mod Order
use Prim.Native.Char.{code}
use Prim.Native.String.{String}
use ist_key_value_store.Prelude.{
  ℕ, ◌+◌, ◌-◌, Bool, true, false, List, [], ◌∷◌, compare, Ordering, ◌==◌, leb, ◌&&◌, take, length,
  if◌then◌else◌,
}

abbrev pub Str : Type 0
Str = List ℕ

-- The bytes of a literal of the source.
abbrev pub codes : String → Str
codes String.[] = []
codes (String.◌∷◌ c s) = code c ∷ codes s

-- What a pointer to these bytes reads as: `strcpy`, `strdup` and `%s` stop at the first NUL.
unfoldable pub c_str : List ℕ → Str
c_str [] = []
c_str (c ∷ cs) = if c == 0 then [] else c ∷ c_str cs

-- The sign of `strcmp(a, b)`; the end of a string is the byte 0.
unfoldable pub strcmp : Str → Str → Ordering
strcmp [] [] = Ordering.eq
strcmp [] (d ∷ ds) = Ordering.lt
strcmp (c ∷ cs) [] = Ordering.gt
strcmp (c ∷ cs) (d ∷ ds) = elim (compare c d) [
  | Ordering.lt ↦ Ordering.lt
  | Ordering.eq ↦ strcmp cs ds
  | Ordering.gt ↦ Ordering.gt
]

-- `strcmp(a, b) == 0`
unfoldable pub str_eq : Str → Str → Bool
str_eq a b = elim (strcmp a b) [ Ordering.eq ↦ true | _ ↦ false ]

-- `tolower` in the C locale.
unfoldable pub tolower : ℕ → ℕ
tolower c = if leb b'A' c && leb c b'Z' then c + 32 else c

-- `snprintf(buffer, size, …)` keeps at most `size - 1` bytes of the text.
unfoldable pub snprintf : ℕ → Str → Str
snprintf size text = take (size - 1) text

-- `strnlen(s, n)`, with the `n` bytes at most that are read.
unfoldable pub strn : ℕ → Str → Str
strn n s = take n (c_str s)

unfoldable pub strlen : Str → ℕ
strlen s = length s
