-- ===== src/Dump/Backup.antt =====
-- server/operations.c: what `kvs_backup` writes, line by line.
use ist_key_value_store.Prelude.{
  ℕ, zero, suc, ◌+◌, ◌-◌, ◌≤◌, ◌≡◌, refl, ◌∙◌, ap, List, [], ◌∷◌, ◌++◌, append_assoc, append-nil,
  some, arith, All, take, take-eq_of_le, length,
}
use ist_key_value_store.CString.{Str, c_str, strn}
use ist_key_value_store.Table.{KeyNode, Bucket, HashTable}
use ist_key_value_store.Machine.{World, live, get_table, write_out}
use ist_key_value_store.Operations.{max_string_size}
use ist_key_value_store.Dump.{
  line, strn_memcpy, backup_line, backup_bucket, backup_buckets, kvs_backup,
}
use ist_key_value_store.Dump.Show.{length-line, all_lines, lines_of}

-- A string without a NUL.
abbrev pub IsCString : Str → Type 0
IsCString s = c_str s ≡ s

take-append :
    (n : ℕ) (xs ys : Str) → take n xs ++ take (n - length (take n xs)) ys ≡ take n (xs ++ ys)
take-append zero [] ys = ground arith
take-append zero (x ∷ xs) ys = ground arith
take-append (suc n) [] ys = ground arith
take-append (suc n) (x ∷ xs) ys = ground (arith, take-append n xs ys)

-- A piece is copied as far as 39 bytes have room for it.
strn_memcpy-take :
    (before src : Str)
    → IsCString src
    → strn_memcpy (take (max_string_size - 1) before) src
      ≡ take (max_string_size - 1) (before ++ src)
unfolding strn_memcpy strn
strn_memcpy-take before src h =
    let n = max_string_size - 1 in
    let e : max_string_size - length (take n before) - 1 ≡ n - length (take n before) =
      omega arith in
    rw (h, e, take-append n before src) refl

-- For strings without a NUL, the text that `kvs_backup` writes for a pair is the line of `kvs_show`, cut
-- after 39 bytes.
pub backup_line-take :
    (key value : Str)
    → IsCString key
    → IsCString value
    → backup_line key value ≡ take (max_string_size - 1) (line key value)
unfolding backup_line c_str
backup_line-take key value k v =
    let n = max_string_size - 1 in
    let e : Str = b')' ∷ b'\n' ∷ [] in
    let comma : Str = b',' ∷ b' ' ∷ [] in
    let p₁ : Str = b'(' ∷ key in
    let p₂ : Str = p₁ ++ comma in
    ap (λ a. strn_memcpy (strn_memcpy (strn_memcpy a comma) value) e)
      (strn_memcpy-take (b'(' ∷ []) key k)
    ∙ ap (λ a. strn_memcpy (strn_memcpy a value) e) (strn_memcpy-take p₁ comma comma-IsCString)
    ∙ ap (λ a. strn_memcpy a e) (strn_memcpy-take p₂ value v)
    ∙ strn_memcpy-take (p₂ ++ value) e e-IsCString
    ∙ ap (take n) (append_assoc p₂ value e ∙ append_assoc p₁ comma (value ++ e))
  where
    comma-IsCString : IsCString (b',' ∷ b' ' ∷ [])
    comma-IsCString = refl

    e-IsCString : IsCString (b')' ∷ b'\n' ∷ [])
    e-IsCString = refl

-- A pair whose line has at most 39 bytes.
abbrev pub FitsLine : KeyNode → Type 0
FitsLine node =
    IsCString node.key × IsCString node.value × (length node.key + length node.value ≤ 34)

backup_line-line :
    (node : KeyNode) → FitsLine node → backup_line node.key node.value ≡ line node.key node.value
backup_line-line node f =
    backup_line-take node.key node.value f.0 f.1
    ∙ take-eq_of_le (max_string_size - 1) (line node.key node.value)
        (omega (arith, f.2, length-line node.key node.value))

backup_bucket-lines_of :
    (bucket : Bucket) (w : World)
    → All FitsLine bucket
    → backup_bucket bucket w ≡ some (tt, record w { out = w.out ++ lines_of bucket })
unfolding backup_bucket write_out
backup_bucket-lines_of [] w s = simp append-nil
backup_bucket-lines_of (node ∷ next) w s = ground (
  arith,
  backup_line-line node s.0,
  backup_bucket-lines_of next (record w { out = w.out ++ line node.key node.value }) s.1,
  append_assoc w.out (line node.key node.value) (lines_of next),
)

backup_buckets-all_lines :
    (buckets : List Bucket) (w : World)
    → All (All FitsLine) buckets
    → backup_buckets buckets w ≡ some (tt, record w { out = w.out ++ all_lines buckets })
unfolding backup_buckets
backup_buckets-all_lines [] w s = simp append-nil
backup_buckets-all_lines (bucket ∷ buckets) w s = ground (
  arith,
  backup_bucket-lines_of bucket w s.0,
  backup_buckets-all_lines buckets (record w { out = w.out ++ lines_of bucket }) s.1,
  append_assoc w.out (lines_of bucket) (all_lines buckets),
)

-- If no pair has more than 34 bytes of key and value, and no string holds a NUL, `kvs_backup` returns 0
-- and writes exactly the lines of `kvs_show`.
pub kvs_backup_lem :
    (w : World) (t : HashTable)
    → w.kvs_table ≡ live t
    → All (All FitsLine) t.table
    → kvs_backup w ≡ some (0, record w { out = w.out ++ all_lines t.table })
unfolding kvs_backup get_table
kvs_backup_lem w t at fits = ground (arith, at, backup_buckets-all_lines t.table w fits)
