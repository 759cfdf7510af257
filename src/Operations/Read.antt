-- ===== src/Operations/Read.antt =====
-- server/operations.c: `kvs_read`.
use ist_key_value_store.Prelude.{
  ◌≡◌, List, [], ◌∷◌, ◌++◌, append_assoc, append-nil, Option, some, none, arith, All,
}
use ist_key_value_store.CString.{Str}
use ist_key_value_store.Table.{HashTable}
use ist_key_value_store.Table.Hash.{IsHashable}
use ist_key_value_store.Table.View.{view, IsWellFormed}
use ist_key_value_store.Machine.{World, live, reading}
use ist_key_value_store.Kvs.Pairs.{read_pair-view}
use ist_key_value_store.Locks.Holding.{IsReady}
use ist_key_value_store.Locks.Release.{lock_list-Brackets, unlock_list-emptied}
use ist_key_value_store.Operations.{compare_keys, read_pairs, kvs_read, or_error, entry}
use ist_key_value_store.Operations.Text.{IsShort, IsShortValue, snprintf-entry, read_text}
use ist_key_value_store.Operations.Sort.{qsort}
use ist_key_value_store.Operations.Sort.Laws.{qsort-All}

or_error-IsShort : (o : Option Str) → IsShortValue o → IsShort (or_error o)
or_error-IsShort none h = omega arith
or_error-IsShort (some v) h = h

module _ (t : HashTable) (wf : IsWellFormed t) where
  read_pairs-read_text :
      (keys : List Str) (w : World)
      → w.kvs_table ≡ live t
      → w.allocs ≡ []
      → All IsHashable keys
      → All IsShort keys
      → All (λ key. IsShortValue (view t key)) keys
      → read_pairs keys w ≡ some (tt, record w { out = w.out ++ read_text (view t) keys })
  unfolding read_pairs
  read_pairs-read_text [] w at memory h s v = ground (arith, append-nil w.out)
  read_pairs-read_text (key ∷ keys) w at memory h s v =
      let first = entry key (or_error (view t key)) in
      ground (
        arith,
        read_pair-view w t key at memory wf h.0,
        snprintf-entry key (or_error (view t key)) s.0 (or_error-IsShort (view t key) v.0),
        read_pairs-read_text keys (record w { out = w.out ++ first }) at memory h.1 s.1 v.1,
        append_assoc w.out first (read_text (view t) keys),
      )

  -- `kvs_read` of keys that have buckets and fit their arrays, on a well-formed table where their values
  -- fit theirs, with locks and memory that do not fail and no bucket lock held, returns 0 and changes
  -- nothing but the output, to which it adds, in brackets and in sorted order, each key with its value
  -- or with KVSERROR.
  pub kvs_read_lem :
      (w : World) (keys : List Str)
      → IsReady w t
      → w.held ≡ []
      → w.allocs ≡ []
      → All IsHashable keys
      → All IsShort keys
      → All (λ key. IsShortValue (view t key)) keys
      → kvs_read keys w
        ≡ some (
          0,
          record w {
            out =
                w.out
                ++ (b'[' ∷ read_text (view t) (qsort compare_keys keys) ++ (b']' ∷ b'\n' ∷ []));
          },
        )
  kvs_read_lem w keys r none_held memory h s v =
      let sorted = qsort compare_keys keys in
      let h' = qsort-All compare_keys IsHashable keys h in
      let s' = qsort-All compare_keys IsShort keys s in
      let v' = qsort-All compare_keys (λ key. IsShortValue (view t key)) keys v in
      let b = lock_list-Brackets reading t sorted w r none_held h' in
      let w₁ : World = record w { held = b.held; out = w.out ++ b'[' ∷ [] } in
      let body = read_pairs-read_text sorted w₁ r.at memory h' s' v' in
      let printed = read_text (view t) sorted in
      let w₂ : World = record w₁ { out = w₁.out ++ printed ++ b']' ∷ b'\n' ∷ [] } in
      let done =
        unlock_list-emptied t b.marks w₂
          (record { at = r.at; locks = r.locks; unlocks = r.unlocks }) b.emptied in
      unfold kvs_read in
      ground (
        arith,
        r.at,
        none_held,
        b.locks,
        body,
        done,
        append_assoc w.out (b'[' ∷ []) printed,
        append_assoc w.out (b'[' ∷ printed) (b']' ∷ b'\n' ∷ []),
      )
