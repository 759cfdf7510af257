-- ===== src/Examples/DumpRuns.antt =====
-- Runs of `kvs_show` and `kvs_backup`.
use ist_key_value_store.Prelude.{◌≡◌, refl, some, arith, replicate, take}
use ist_key_value_store.CString.{c_str, tolower}
use ist_key_value_store.Table.{hash, first_byte}
use ist_key_value_store.Dump.{kvs_backup, backup_line, line}
use ist_key_value_store.Dump.Show.{all_lines}
use ist_key_value_store.Dump.Pairs.{Pairs}
use ist_key_value_store.Dump.Backup.{backup_line-take, kvs_backup_lem}
use ist_key_value_store.Examples.Fixtures.{two_pairs, world}

kvs_backup_lem_example :
    kvs_backup world ≡ some (0, record world { out = all_lines two_pairs.table })
unfolding hash tolower first_byte c_str
kvs_backup_lem_example = kvs_backup_lem world two_pairs refl (ground arith)

-- 20 and 25 bytes: the value is cut, and the line has no end.
backup_line-take_example :
    backup_line (replicate 20 b'k') (replicate 25 b'v')
    ≡ take 39 (line (replicate 20 b'k') (replicate 25 b'v'))
unfolding c_str
backup_line-take_example = backup_line-take (replicate 20 b'k') (replicate 25 b'v') refl refl
