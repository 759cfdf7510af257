-- ===== src/Operations/AnyOrder.antt =====
-- server/operations.c: pairs with different keys may be given to `kvs_write` in any order.
use ist_key_value_store.Prelude.{◌≡◌, ◌∙◌}
use ist_key_value_store.CString.{Str}
use ist_key_value_store.Table.{HashTable}
use ist_key_value_store.Table.View.{view, IsWellFormed}
use ist_key_value_store.Machine.{World}
use ist_key_value_store.Locks.Holding.{IsReady}
use ist_key_value_store.Operations.{Pair, compare_pairs}
use ist_key_value_store.Operations.Sort.{qsort}
use ist_key_value_store.Prelude.{[], List}
use ist_key_value_store.Operations.Sort.Laws.{qsort-perm}
use ist_key_value_store.Operations.Distinct.{AreDistinct, written_of_perm}
use ist_key_value_store.Operations.Write.{written, AreHashable, WritesSorted, kvs_write_lem}

-- `kvs_write` of pairs with different keys, under the conditions under which it succeeds, returns 0, and
-- afterwards each key of the pairs reads as its value and every other key as before: the sorting does
-- not show.
pub kvs_write-AreDistinct :
    (w : World) (t : HashTable) (pairs : List Pair)
    → IsReady w t
    → w.held ≡ []
    → w.allocs ≡ []
    → IsWellFormed t
    → AreHashable pairs
    → AreDistinct pairs
    → (t' : HashTable) × WritesSorted w t pairs t'
      × ((j : Str) → view t' j ≡ written j pairs (view t j))
kvs_write-AreDistinct w t pairs r none_held memory wf h d =
    let (t', s) = kvs_write_lem w t pairs r none_held memory wf h in
    (t', s, λ j. s.reads j ∙ reorder j)
  where
    reorder :
        (j : Str) → written j (qsort compare_pairs pairs) (view t j) ≡ written j pairs (view t j)
    reorder j =
        written_of_perm j (qsort compare_pairs pairs) pairs (view t j)
          (qsort-perm compare_pairs pairs) d
