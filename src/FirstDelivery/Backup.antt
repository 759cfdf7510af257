-- ===== src/FirstDelivery/Backup.antt =====
-- proj_p1/operations.c: what a backup of the first delivery holds.
use ist_key_value_store.Prelude.{
  ◌≡◌, refl, List, [], ◌∷◌, ◌++◌, some, arith, All, Bool, if◌then◌else◌, Option-cases, inl, inr,
}
use ist_key_value_store.Table.{Bucket, HashTable}
use ist_key_value_store.Machine.{World, get_table, write_out}
use ist_key_value_store.Locks.Holding.{IsReady}
use ist_key_value_store.Dump.{show_bucket, show_buckets}
use ist_key_value_store.Dump.Show.{IsShortNode, all_lines, show_buckets-all_lines, kvs_show_lem}
use ist_key_value_store.FirstDelivery.Operations.{
  backup_bucket, backup_buckets, kvs_backup, kvs_show,
}

backup_bucket-show_bucket :
    (bucket : Bucket) (w : World) → backup_bucket bucket w ≡ show_bucket bucket w
unfolding backup_bucket show_bucket write_out
backup_bucket-show_bucket [] w = refl
backup_bucket-show_bucket (node ∷ next) w = backup_bucket-show_bucket next _

backup_buckets-show_buckets :
    (buckets : List Bucket) (w : World) → backup_buckets buckets w ≡ show_buckets buckets w
unfolding backup_buckets show_buckets
backup_buckets-show_buckets [] w = refl
backup_buckets-show_buckets (bucket ∷ buckets) w =
    let same = backup_bucket-show_bucket bucket w in
    elim (Option-cases (show_bucket bucket w)) [
      | inl fails ↦ ground arith
      | inr ((shown, w'), done) ↦ ground (arith, backup_buckets-show_buckets buckets w')
    ]

-- On a table whose strings fit their arrays, with locks that do not fail and none held, `kvs_backup` of the
-- first delivery and `kvs_show` leave the same state, with the same text written: the backup has no lines
-- that are cut, as those of the second delivery can be. It returns 1 if the file cannot be closed.
pub kvs_backup-kvs_show :
    (w : World) (t : HashTable) (close_fails : Bool)
    → IsReady w t
    → w.held ≡ []
    → All (All IsShortNode) t.table
    → (w' : World) × (kvs_show w ≡ some (0, w'))
      × (kvs_backup close_fails w ≡ some ((if close_fails then 1 else 0), w'))
unfolding kvs_backup get_table
kvs_backup-kvs_show w t close_fails r none_held s = (
  record w { out = w.out ++ all_lines t.table },
  kvs_show_lem w t r none_held s,
  ground (arith, r.at, backup_buckets-show_buckets t.table w, show_buckets-all_lines t.table w s),
)
