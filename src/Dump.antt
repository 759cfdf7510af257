-- ===== src/Dump.antt =====
-- server/operations.c and server/io.c: `kvs_show`, `kvs_backup` and `kvs_wait`.
pub mod Show
pub mod Backup
pub mod Pairs
use ist_key_value_store.Prelude.{
  ℕ, zero, suc, ◌+◌, ◌-◌, ◌*◌, ◌/◌, ◌%◌, ◌^◌, List, [], ◌∷◌, ◌++◌, Bool, true, false, length,
  if◌then◌else◌,
}
use ist_key_value_store.CString.{Str, snprintf, strn}
use ist_key_value_store.Table.{Bucket, table_size}
use ist_key_value_store.Machine.{M, reading, pure, ◌>>=◌, ◌>>◌, get_table, write_out}
use ist_key_value_store.Locks.{lock_bucket, unlock_bucket}
use ist_key_value_store.Operations.{max_write_size, max_string_size}

-- `(key, value)` and the end of the line
abbrev pub line : Str → Str → Str
line key value = b'(' ∷ key ++ (b',' ∷ b' ' ∷ value ++ (b')' ∷ b'\n' ∷ []))

-- The locking loop of `kvs_show` from bucket `i` for `n` rounds: whether a lock failed.
unfoldable pub lock_all : ℕ → ℕ → M Bool
lock_all zero i = pure false
lock_all (suc n) i = do
  failed ← lock_bucket reading i
  if failed then pure true else lock_all n (i + 1)

unfoldable pub unlock_all : ℕ → ℕ → M Bool
unlock_all zero i = pure false
unlock_all (suc n) i = do
  failed ← unlock_bucket i
  if failed then pure true else unlock_all n (i + 1)

unfoldable pub show_bucket : Bucket → M (Unit {0})
show_bucket [] = pure tt
show_bucket (node ∷ next) = do
  write_out (snprintf max_write_size (line node.key node.value))
  show_bucket next

unfoldable pub show_buckets : List Bucket → M (Unit {0})
show_buckets [] = pure tt
show_buckets (bucket ∷ buckets) = do show_bucket bucket; show_buckets buckets

unfoldable pub kvs_show : M ℕ
kvs_show = do
  failed ← lock_all table_size 0
  if failed then pure 1 else do
    t ← get_table
    show_buckets t.table
    stuck ← unlock_all table_size 0
    pure (if stuck then 1 else 0)

-- One `strn_memcpy(aux + num_bytes_copied, src, MAX_STRING_SIZE - num_bytes_copied - 1)`, behind what
-- `aux` holds.
unfoldable pub strn_memcpy : Str → Str → Str
strn_memcpy aux src = aux ++ strn (max_string_size - length aux - 1) src

-- The string that `kvs_backup` builds for one pair.
unfoldable pub backup_line : Str → Str → Str
unfolding strn_memcpy
backup_line key value =
    let after_key = strn_memcpy (b'(' ∷ []) key in
    let after_comma = strn_memcpy after_key (b',' ∷ b' ' ∷ []) in
    let after_value = strn_memcpy after_comma value in strn_memcpy after_value (b')' ∷ b'\n' ∷ [])

unfoldable pub backup_bucket : Bucket → M (Unit {0})
backup_bucket [] = pure tt
backup_bucket (node ∷ next) = do write_out (backup_line node.key node.value); backup_bucket next

unfoldable pub backup_buckets : List Bucket → M (Unit {0})
backup_buckets [] = pure tt
backup_buckets (bucket ∷ buckets) = do backup_bucket bucket; backup_buckets buckets

-- The child's copy of the state; `out` is the backup file.
unfoldable pub kvs_backup : M ℕ
kvs_backup = do t ← get_table; backup_buckets t.table; pure 0

pub record Timespec : Type 0 where
  pub tv_sec : ℕ
  pub tv_nsec : ℕ

unfoldable pub delay_to_timespec : ℕ → Timespec
delay_to_timespec delay_ms = record {
  tv_sec = delay_ms / 1000;
  tv_nsec = (delay_ms % 1000 * 1000000) % 2 ^ 32;
}
