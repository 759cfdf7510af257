-- ===== src/Locks/Failure.antt =====
-- server/operations.c: a command whose bucket lock cannot be taken.
use ist_key_value_store.Prelude.{
  ℕ, ◌≡◌, List, [], ◌∷◌, Bool, true, false, some, arith, All, if◌then◌else◌, get_or, set, length,
  length-set, ◌==◌, Bool-cases, inl, inr,
}
use ist_key_value_store.CString.{Str}
use ist_key_value_store.Table.{HashTable, table_size, hash}
use ist_key_value_store.Table.Hash.{IsHashable, slot, hash-eq-pos, slot-hash-lt}
use ist_key_value_store.Machine.{World, live, Mode}
use ist_key_value_store.Locks.{lock_bucket, lock_list}
use ist_key_value_store.Locks.Holding.{acquired, push}

-- Whether one of the buckets has a lock that fails.
unfoldable pub any_fails : (ℕ → Bool) → List ℕ → Bool
any_fails fails [] = false
any_fails fails (i ∷ is) = if fails i then true else any_fails fails is

-- The buckets before the first whose lock fails.
unfoldable pub before_failure : (ℕ → Bool) → List ℕ → List ℕ
before_failure fails [] = []
before_failure fails (i ∷ is) = if fails i then [] else i ∷ before_failure fails is

pub lock_list-fails :
    (mode : Mode) (t : HashTable) (keys : List Str) (marks : List ℕ) (w : World)
    → w.kvs_table ≡ live t
    → All IsHashable keys
    → length marks ≡ table_size
    → any_fails w.lock_error (acquired keys marks) ≡ true
    → (marks' : List ℕ) × (lock_list mode keys marks w
        ≡ some (
          (1, marks'),
          record w { held = push mode (before_failure w.lock_error (acquired keys marks)) w.held },
        ))
unfolding lock_list lock_bucket acquired push any_fails before_failure
lock_list-fails mode t [] marks w at h l f = absurd cc
lock_list-fails mode t (key ∷ keys) marks w at h l f =
    let i = slot (hash key) in
    elim (Bool-cases (get_or marks i 0 == 0)) [
      | inr old ↦
          let (marks', rest) = lock_list-fails mode t keys marks w at h.1 l (ground arith) in
          (marks', ground (arith, hash-eq-pos key h.0, slot-hash-lt key h.0))
      | inl new ↦ elim (Bool-cases (w.lock_error i)) [
        | inl bad ↦ (marks, ground (arith, hash-eq-pos key h.0, slot-hash-lt key h.0))
        | inr good ↦
            let (marks', rest) =
              lock_list-fails mode t keys (set marks i 1)
                (record w { held = record { index = i; mode = mode } ∷ w.held }) at h.1
                (rw length-set l) (ground arith) in
            (marks', ground (arith, hash-eq-pos key h.0, slot-hash-lt key h.0))
      ]
    ]
