-- ===== src/FirstDelivery/Read.antt =====
-- proj_p1/operations.c: `kvs_read`, which is undefined behaviour once a key is found.
use ist_key_value_store.Prelude.{
  ◌≡◌, List, [], ◌∷◌, ◌++◌, append_assoc, append-nil, Option, some, none, Bool, true, false, arith,
  All, Option-cases, inl, inr, if◌then◌else◌,
}
use ist_key_value_store.CString.{Str}
use ist_key_value_store.Table.{HashTable, hash}
use ist_key_value_store.Table.Hash.{IsHashable, slot, hash-eq-pos}
use ist_key_value_store.Table.View.{view, node_of, IsWellFormed, in_table}
use ist_key_value_store.Machine.{World, live, reading}
use ist_key_value_store.Machine.Rules.{bucket_at-live}
use ist_key_value_store.Locks.{lock_read_list}
use ist_key_value_store.Locks.Holding.{IsReady}
use ist_key_value_store.Locks.Release.{lock_list-Brackets, unlock_list-emptied}
use ist_key_value_store.Operations.{compare_keys, kvserror, entry}
use ist_key_value_store.Operations.Text.{IsShort, snprintf-entry, read_text}
use ist_key_value_store.Operations.Sort.{qsort}
use ist_key_value_store.Operations.Sort.Laws.{qsort-All}
use ist_key_value_store.FirstDelivery.{read_pair}
use ist_key_value_store.FirstDelivery.Operations.{read_pairs, kvs_read}

-- Whether one of the keys has a value.
abbrev pub any_stored : (Str → Option Str) → List Str → Bool
any_stored f [] = false
any_stored f (key ∷ keys) = elim (f key) [ none ↦ any_stored f keys | some _ ↦ true ]

module _ (t : HashTable) (wf : IsWellFormed t) where
  read_pair-view :
      (key : Str) (w : World)
      → w.kvs_table ≡ live t
      → IsHashable key
      → read_pair key w ≡ elim (view t key) [ none ↦ some (none, w) | some _ ↦ none ]
  unfolding read_pair view node_of
  read_pair-view key w at h =
      ground
        (arith, hash-eq-pos key h, bucket_at-live w t (slot (hash key)) at (in_table t wf key h []))

  read_pairs-any_stored :
      (keys : List Str) (w : World)
      → w.kvs_table ≡ live t
      → All IsHashable keys
      → All IsShort keys
      → read_pairs keys w ≡ (
          if any_stored (view t) keys
          then none
          else some (tt, record w { out = w.out ++ read_text (view t) keys }))
  unfolding read_pairs
  read_pairs-any_stored [] w at h s = ground (arith, append-nil w.out)
  read_pairs-any_stored (key ∷ keys) w at h s = elim (Option-cases (view t key)) [
    | inr (value, stored) ↦ ground (arith, read_pair-view key w at h.0)
    | inl missing ↦ ground (
      arith,
      read_pair-view key w at h.0,
      snprintf-entry key kvserror s.0 (omega arith),
      read_pairs-any_stored keys (record w { out = w.out ++ entry key kvserror }) at h.1 s.1,
      append_assoc w.out (entry key kvserror) (read_text (view t) keys),
    )
  ]

  -- `kvs_read` of the first delivery, on a well-formed table and keys that have buckets and fit their
  -- arrays, with locks that do not fail and no bucket lock held, is undefined behaviour if one of the
  -- keys is stored; if all are missing, it returns 0 and changes nothing but the output, to which it
  -- adds, in brackets and in sorted order, each key with KVSERROR.
  pub kvs_read-any_stored :
      (w : World) (keys : List Str)
      → IsReady w t
      → w.held ≡ []
      → All IsHashable keys
      → All IsShort keys
      → let sorted = qsort compare_keys keys in
        kvs_read keys w ≡ (
          if any_stored (view t) sorted
          then none
          else some (
            0,
            record w { out = w.out ++ (b'[' ∷ read_text (view t) sorted ++ (b']' ∷ b'\n' ∷ [])) },
          ))
  kvs_read-any_stored w keys r none_held h s =
      let sorted = qsort compare_keys keys in
      let h' = qsort-All compare_keys IsHashable keys h in
      let s' = qsort-All compare_keys IsShort keys s in
      let b = lock_list-Brackets reading t sorted w r none_held h' in
      let w₁ : World = record w { held = b.held; out = w.out ++ b'[' ∷ [] } in
      let body = read_pairs-any_stored sorted w₁ r.at h' s' in
      let printed = read_text (view t) sorted in
      let w₂ : World = record w₁ { out = w₁.out ++ printed ++ b']' ∷ b'\n' ∷ [] } in
      let done =
        unlock_list-emptied t b.marks w₂
          (record { at = r.at; locks = r.locks; unlocks = r.unlocks }) b.emptied in
      unfold kvs_read lock_read_list in
      ground (
        arith,
        r.at,
        none_held,
        b.locks,
        body,
        done,
        append_assoc w.out (b'[' ∷ []) printed,
        append_assoc w.out (b'[' ∷ printed) (b']' ∷ b'\n' ∷ []),
      )
