-- ===== src/Dump/Show.antt =====
-- server/operations.c: what `kvs_show` prints.
use ist_key_value_store.Prelude.{
  ℕ, zero, suc, ◌+◌, ◌≡◌, refl, List, [], ◌∷◌, ◌++◌, append_assoc, append-nil, some, false, arith,
  All, length, length-append,
}
use ist_key_value_store.CString.{Str, snprintf}
use ist_key_value_store.Table.{KeyNode, Bucket, HashTable, table_size}
use ist_key_value_store.Machine.{World, reading, Held, write_out, get_table}
use ist_key_value_store.Locks.{lock_bucket, unlock_bucket, release}
use ist_key_value_store.Locks.Holding.{IsReady, push}
use ist_key_value_store.Operations.{max_write_size}
use ist_key_value_store.Operations.Text.{IsShort, snprintf-fits}
use ist_key_value_store.Dump.{line, lock_all, unlock_all, show_bucket, show_buckets, kvs_show}

abbrev pub lines_of : Bucket → Str
lines_of [] = []
lines_of (node ∷ next) = line node.key node.value ++ lines_of next

-- A line for every pair, bucket after bucket, in each the latest pair first.
abbrev pub all_lines : List Bucket → Str
all_lines [] = []
all_lines (bucket ∷ buckets) = lines_of bucket ++ all_lines buckets

abbrev pub IsShortNode : KeyNode → Type 0
IsShortNode node = IsShort node.key × IsShort node.value

abbrev pub range : ℕ → ℕ → List ℕ
range zero i = []
range (suc n) i = i ∷ range n (i + 1)

lock_all-push :
    (t : HashTable) (n i : ℕ) (w : World)
    → IsReady w t
    → lock_all n i w ≡ some (false, record w { held = push reading (range n i) w.held })
unfolding lock_all lock_bucket push
lock_all-push t zero i w r = refl
lock_all-push t (suc n) i w r = ground (
  arith,
  r.at,
  r.locks i,
  lock_all-push t n (i + 1) (record w { held = record { index = i; mode = reading } ∷ w.held })
      (record { at = r.at; locks = r.locks; unlocks = r.unlocks }),
)

abbrev release_range : List ℕ → List Held → List Held
release_range [] held = held
release_range (i ∷ is) held = release_range is (release i held)

unlock_all-release_range :
    (t : HashTable) (n i : ℕ) (w : World)
    → IsReady w t
    → unlock_all n i w ≡ some (false, record w { held = release_range (range n i) w.held })
unfolding unlock_all unlock_bucket
unlock_all-release_range t zero i w r = refl
unlock_all-release_range t (suc n) i w r = ground (
  arith,
  r.at,
  r.unlocks i,
  unlock_all-release_range t n (i + 1) (record w { held = release i w.held })
      (record { at = r.at; locks = r.locks; unlocks = r.unlocks }),
)

pub length-line : (key value : Str) → length (line key value) ≡ length key + length value + 5
length-line key value = omega (
  arith,
  length-append key (b',' ∷ b' ' ∷ value ++ (b')' ∷ b'\n' ∷ [])),
  length-append (b',' ∷ b' ' ∷ value) (b')' ∷ b'\n' ∷ []),
)

snprintf-line :
    (node : KeyNode)
    → IsShortNode node
    → snprintf max_write_size (line node.key node.value) ≡ line node.key node.value
snprintf-line node s =
    snprintf-fits max_write_size (line node.key node.value)
      (omega (arith, length-line node.key node.value))

show_bucket-lines_of :
    (bucket : Bucket) (w : World)
    → All IsShortNode bucket
    → show_bucket bucket w ≡ some (tt, record w { out = w.out ++ lines_of bucket })
unfolding show_bucket write_out
show_bucket-lines_of [] w s = simp append-nil
show_bucket-lines_of (node ∷ next) w s = ground (
  arith,
  snprintf-line node s.0,
  show_bucket-lines_of next (record w { out = w.out ++ line node.key node.value }) s.1,
  append_assoc w.out (line node.key node.value) (lines_of next),
)

pub show_buckets-all_lines :
    (buckets : List Bucket) (w : World)
    → All (All IsShortNode) buckets
    → show_buckets buckets w ≡ some (tt, record w { out = w.out ++ all_lines buckets })
unfolding show_buckets
show_buckets-all_lines [] w s = simp append-nil
show_buckets-all_lines (bucket ∷ buckets) w s = ground (
  arith,
  show_bucket-lines_of bucket w s.0,
  show_buckets-all_lines buckets (record w { out = w.out ++ lines_of bucket }) s.1,
  append_assoc w.out (lines_of bucket) (all_lines buckets),
)

-- `kvs_show` on a table whose strings fit their arrays, with locks that do not fail and none held,
-- returns 0, gives back all the locks that it takes, and prints one line `(key, value)` for every pair,
-- bucket after bucket, in each bucket the latest pair first.
pub kvs_show_lem :
    (w : World) (t : HashTable)
    → IsReady w t
    → w.held ≡ []
    → All (All IsShortNode) t.table
    → kvs_show w ≡ some (0, record w { out = w.out ++ all_lines t.table })
kvs_show_lem w t r none_held s =
    let w₁ : World = record w { held = push reading (range table_size 0) w.held } in
    let w₂ : World = record w₁ { out = w.out ++ all_lines t.table } in
    let emptied : release_range (range table_size 0) (push reading (range table_size 0) []) ≡ [] =
      unfold release push in refl in
    let locked = lock_all-push t table_size 0 w r in
    let shown = show_buckets-all_lines t.table w₁ s in
    let done =
      unlock_all-release_range t table_size 0 w₂
        (record { at = r.at; locks = r.locks; unlocks = r.unlocks }) in
    unfold kvs_show get_table in ground (arith, r.at, none_held, locked, shown, done, emptied)
