-- ===== src/Table/Hash.antt =====
-- Which keys `hash` accepts, and that its index is in the table for those.
use ist_key_value_store.Prelude.{
  ℕ, ◌≤◌, ◌<◌, ◌≡◌, Bool, true, false, ℤ, pos, negsuc, arith, leb, ◌&&◌, ◌||◌, [], ◌∷◌, ◌≢◌,
  Ordering,
}
use ist_key_value_store.CString.{Str, strcmp}
use ist_key_value_store.Table.{first_byte, hash, table_size}

-- An ASCII letter or digit.
abbrev pub is_alnum : ℕ → Bool
is_alnum c = leb b'a' c && leb c b'z' || leb b'A' c && leb c b'Z' || leb b'0' c && leb c b'9'

-- The keys that have a bucket: those that begin with a letter or a digit.
abbrev pub IsHashable : Str → Type 0
IsHashable key = is_alnum (first_byte key) ≡ true

-- The index that a hash stands for; past the table where there is none.
abbrev pub slot : ℤ → ℕ
slot (pos i) = i
slot (negsuc n) = table_size

pub hash-eq-pos : (key : Str) → IsHashable key → hash key ≡ pos (slot (hash key))
unfolding hash
hash-eq-pos key h = ground arith

pub slot-hash-lt : (key : Str) → IsHashable key → slot (hash key) < table_size
unfolding hash
slot-hash-lt key h = ground arith

-- `hash` is -1 exactly on the keys that do not begin with a letter or a digit.
pub hash-invalid_iff :
    (key : Str)
    → (hash key ≡ negsuc 0 → is_alnum (first_byte key) ≡ false)
      × (is_alnum (first_byte key) ≡ false → hash key ≡ negsuc 0)
unfolding hash
hash-invalid_iff key = ground arith

-- The keys that the comment on `hash` speaks of: those that begin with a lower-case letter.
abbrev pub IsLower : Str → Type 0
IsLower key = (b'a' ≤ first_byte key) × (first_byte key ≤ b'z')

pub IsLower-IsHashable : (key : Str) → IsLower key → IsHashable key
IsLower-IsHashable key h = ground arith

-- For such keys the order of the strings is the order of the buckets.
pub slot-hash_mono :
    (a b : Str) → IsLower a → IsLower b → strcmp a b ≢ Ordering.gt → slot (hash a) ≤ slot (hash b)
unfolding hash strcmp
slot-hash_mono [] b h k le = absurd (omega arith)
slot-hash_mono (c ∷ cs) [] h k le = absurd (omega arith)
slot-hash_mono (c ∷ cs) (d ∷ ds) h k le = ground arith
