-- ===== src/Examples/PipeRuns.antt =====
-- Runs of the reading and writing loops.
use ist_key_value_store.Prelude.{◌≡◌, [], ◌∷◌, List, some, none, pos, false, arith}
use ist_key_value_store.Pipes.{Read, bytes, Write, wrote, read_all, write_all}
use ist_key_value_store.Pipes.Whole.{write_all_completes, read_all_completes}
use ist_key_value_store.Examples.Fixtures.{ant}

abbrev writes_of_ant : List Write
writes_of_ant = Write.interrupted ∷ wrote 2 ∷ wrote 1 ∷ wrote 1 ∷ []

write_all_completes_example : write_all ant writes_of_ant ≡ some (pos 1, ant)
write_all_completes_example =
    write_all_completes writes_of_ant ant (tt, (omega arith, (omega arith, (omega arith, tt))))
      (omega arith)

abbrev reads_of_ant : List Read
reads_of_ant = bytes (b'a' ∷ b'n' ∷ []) ∷ Read.interrupted ∷ bytes (b't' ∷ []) ∷ []

read_all_completes_example : read_all none 3 reads_of_ant ≡ some (pos 1, ant, false)
read_all_completes_example =
    read_all_completes reads_of_ant 3 (omega arith, (tt, (omega arith, tt))) (omega arith)
