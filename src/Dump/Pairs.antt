-- ===== src/Dump/Pairs.antt =====
-- server/operations.c: what `kvs_show` prints, against the table as a map.
use ist_key_value_store.Prelude.{List, [], ◌∷◌, ◌++◌, Option, none, some, if◌then◌else◌}
use ist_key_value_store.CString.{Str, str_eq}
use ist_key_value_store.Table.{Bucket}
use ist_key_value_store.Dump.{line}

abbrev pub Pairs : Type 0
Pairs = List (Str × Str)

-- One line for each pair.
abbrev pub printed : Pairs → Str
printed [] = []
printed ((key, value) ∷ ps) = line key value ++ printed ps

-- The values that stand with the key `j`.
unfoldable pub values_of : Str → Pairs → List Str
values_of j [] = []
values_of j ((key, value) ∷ ps) = if str_eq key j then value ∷ values_of j ps else values_of j ps

-- One value, or none.
abbrev pub at_most_one : Option Str → List Str
at_most_one none = []
at_most_one (some value) = value ∷ []

abbrev pairs_in : Bucket → Pairs
pairs_in [] = []
pairs_in (node ∷ next) = (node.key, node.value) ∷ pairs_in next

abbrev all_pairs : List Bucket → Pairs
all_pairs [] = []
all_pairs (bucket ∷ buckets) = pairs_in bucket ++ all_pairs buckets
