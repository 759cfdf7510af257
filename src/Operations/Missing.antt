-- ===== src/Operations/Missing.antt =====
-- server/operations.c: what `kvs_delete` is to leave, to send and to print.
use ist_key_value_store.Prelude.{
  ◌≡◌, refl, ◌∙◌, List, [], ◌∷◌, ◌++◌, append_assoc, Option, some, none, Bool, true, false, arith,
  if◌then◌else◌,
}
use ist_key_value_store.CString.{Str, str_eq}
use ist_key_value_store.Table.{Subscribers}
use ist_key_value_store.Machine.{Sent}
use ist_key_value_store.Kvs.{delete_text}
use ist_key_value_store.Kvs.Notices.{notices}
use ist_key_value_store.Operations.{entry, kvsmissing}
use ist_key_value_store.Operations.Text.{IsShort}

-- A map without the key `k`.
abbrev pub without : Str → (Str → Option Str) → Str → Option Str
without k f j = if str_eq k j then none else f j

abbrev pub unsubscribed : Str → (Str → Subscribers) → Str → Subscribers
unsubscribed k f j = if str_eq k j then [] else f j

-- What a key reads as once `keys` are deleted.
abbrev pub remaining : List Str → (Str → Option Str) → Str → Option Str
remaining [] f = f
remaining (key ∷ keys) f = remaining keys (without key f)

abbrev pub remaining_subscribers : List Str → (Str → Subscribers) → Str → Subscribers
remaining_subscribers [] f = f
remaining_subscribers (key ∷ keys) f = remaining_subscribers keys (unsubscribed key f)

-- The keys that are missing when their turn comes; a key that is given twice is, the second time.
abbrev pub missing_keys : List Str → (Str → Option Str) → List Str
missing_keys [] f = []
missing_keys (key ∷ keys) f = elim (f key) [
  | none ↦ key ∷ missing_keys keys (without key f)
  | some _ ↦ missing_keys keys (without key f)
]

abbrev pub deletion_notices : List Str → (Str → Subscribers) → List Sent
deletion_notices [] f = []
deletion_notices (key ∷ keys) f =
    notices (f key) key delete_text ++ deletion_notices keys (unsubscribed key f)

abbrev pub missing_entries : List Str → Str
missing_entries [] = []
missing_entries (key ∷ keys) = entry key kvsmissing ++ missing_entries keys

-- What the loop prints: the bracket before the first entry, unless it was printed before.
abbrev pub opened : Bool → List Str → Str
opened true keys = missing_entries keys
opened false [] = []
opened false (key ∷ keys) = b'[' ∷ missing_entries (key ∷ keys)

abbrev pub any_missing : Bool → List Str → Bool
any_missing true keys = true
any_missing false [] = false
any_missing false (key ∷ keys) = true

-- All that `kvs_delete` prints: nothing if no key was missing.
abbrev pub missing_text : List Str → Str
missing_text [] = []
missing_text (key ∷ keys) = b'[' ∷ missing_entries (key ∷ keys) ++ (b']' ∷ b'\n' ∷ [])

pub kvsmissing-IsShort : IsShort kvsmissing
kvsmissing-IsShort = omega arith

pub opened_cons :
    (aux : Bool) (key : Str) (keys : List Str) (out : Str)
    → (if aux then out else out ++ b'[' ∷ []) ++ entry key kvsmissing ++ opened true keys
      ≡ out ++ opened aux (key ∷ keys)
opened_cons true key keys out = append_assoc out (entry key kvsmissing) (missing_entries keys)
opened_cons false key keys out =
    append_assoc (out ++ b'[' ∷ []) (entry key kvsmissing) (missing_entries keys)
    ∙ append_assoc out (b'[' ∷ []) (entry key kvsmissing ++ missing_entries keys)

pub closed :
    (out : Str) (ms : List Str)
    → (if any_missing false ms
        then out ++ opened false ms ++ b']' ∷ b'\n' ∷ []
        else out ++ opened false ms)
      ≡ out ++ missing_text ms
closed out [] = refl
closed out (m ∷ ms) = append_assoc out (b'[' ∷ missing_entries (m ∷ ms)) (b']' ∷ b'\n' ∷ [])
