-- ===== src/Examples/KvsRuns.antt =====
-- Runs of the operations of server/kvs.c.
use ist_key_value_store.Prelude.{◌≡◌, refl, [], ◌∷◌, some, none, arith, false, Option}
use ist_key_value_store.CString.{Str, strcmp, str_eq}
use ist_key_value_store.Table.{HashTable, first_byte, hash, find_node, update_node}
use ist_key_value_store.Machine.{World}
use ist_key_value_store.Kvs.{notify_subscribers, write_pair, read_pair}
use ist_key_value_store.Kvs.Pairs.{Writes, write_pair-Writes}
use ist_key_value_store.Kvs.SubscriberList.{IsOnce, count_fd}
use ist_key_value_store.Examples.Fixtures.{
  ant, two, ant_node, two_pairs, two_pairs-IsWellFormed, world,
}

write_pair-Writes_example : (t' : HashTable) × Writes world two_pairs ant two t'
unfolding first_byte
write_pair-Writes_example =
    write_pair-Writes world two_pairs ant refl refl two_pairs-IsWellFormed refl two

abbrev no_memory : World
no_memory = record world { allocs = false ∷ [] }

abbrev cat : Str
cat = b'c' ∷ b'a' ∷ b't' ∷ []

abbrev dash : Str
dash = b'-' ∷ []

ant_node-IsOnce : IsOnce ant_node.subscriber
unfolding count_fd
ant_node-IsOnce fd = ground arith

abbrev value_of : Option (Option Str × World) → Option Str
value_of none = none
value_of (some (value, w)) = value

read_back_two :
    value_of (elim (write_pair ant two world) [ none ↦ none | some (_, w) ↦ read_pair ant w ])
    ≡ some two
unfolding write_pair read_pair hash strcmp str_eq find_node update_node first_byte
    notify_subscribers
read_back_two = refl
