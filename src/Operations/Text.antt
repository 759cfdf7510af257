-- ===== src/Operations/Text.antt =====
-- The texts that `kvs_read` and `kvs_delete` of server/operations.c print for a list of keys.
use ist_key_value_store.Prelude.{
  ℕ, ◌+◌, ◌<◌, ◌≡◌, List, [], ◌∷◌, ◌++◌, Option, some, none, arith, length, length-append,
  take-eq_of_le,
}
use ist_key_value_store.CString.{Str, snprintf}
use ist_key_value_store.Operations.{entry, or_error, max_write_size, max_string_size}

-- A string that fits its array of MAX_STRING_SIZE bytes with the final NUL.
abbrev pub IsShort : Str → Type 0
IsShort s = length s < max_string_size

abbrev pub IsShortValue : Option Str → Type 0
IsShortValue none = Unit
IsShortValue (some value) = IsShort value

pub snprintf-fits : (n : ℕ) (s : Str) → length s < n → snprintf n s ≡ s
unfolding snprintf
snprintf-fits n s h = take-eq_of_le _ s (omega arith)

length-entry : (key text : Str) → length (entry key text) ≡ length key + length text + 3
length-entry key text =
    omega (
      arith,
      length-append key (b',' ∷ text ++ (b')' ∷ [])),
      length-append (b',' ∷ text) (b')' ∷ []),
    )

pub snprintf-entry :
    (key text : Str)
    → IsShort key
    → IsShort text
    → snprintf max_write_size (entry key text) ≡ entry key text
snprintf-entry key text k v =
    snprintf-fits max_write_size (entry key text) (omega (arith, length-entry key text))

-- Each key with its value, or with KVSERROR.
abbrev pub read_text : (Str → Option Str) → List Str → Str
read_text f [] = []
read_text f (key ∷ keys) = entry key (or_error (f key)) ++ read_text f keys
