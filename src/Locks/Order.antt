-- ===== src/Locks/Order.antt =====
-- The order in which a command takes its bucket locks.
use ist_key_value_store.Prelude.{
  ℕ, zero, suc, ◌≤◌, ◌<◌, ◌≡◌, ◌≢◌, refl, List, [], ◌∷◌, Bool-cases, inl, inr, Ordering, arith, All,
  All-imp, get_or, set, length, length-set, ◌==◌,
}
use ist_key_value_store.CString.{Str, strcmp}
use ist_key_value_store.CString.Order.{Le-total, Le-trans}
use ist_key_value_store.Table.{table_size, hash}
use ist_key_value_store.Table.Hash.{
  IsHashable, slot, slot-hash-lt, IsLower, IsLower-IsHashable, slot-hash_mono,
}
use ist_key_value_store.Locks.{no_marks}
use ist_key_value_store.Locks.Holding.{acquired}
use ist_key_value_store.Operations.{compare_keys}
use ist_key_value_store.Operations.Sort.{qsort}
use ist_key_value_store.Operations.Sort.Laws.{IsSorted, qsort-IsSorted, qsort-All}

-- Each bucket comes before all that stand behind it.
abbrev pub IsAscending : List ℕ → Type 0
IsAscending [] = Unit
IsAscending (i ∷ is) = All (λ j. i < j) is × IsAscending is

-- Marking `i` leaves fewer buckets without a mark, and not `i`.
unmarked_set :
    (marks : List ℕ) (i j : ℕ)
    → i < length marks
    → get_or (set marks i 1) j 0 ≡ 0
    → (get_or marks j 0 ≡ 0) × (i ≢ j)
unmarked_set [] i j l h = absurd (omega arith)
unmarked_set (m ∷ marks) zero zero l h = absurd (omega arith)
unmarked_set (m ∷ marks) zero (suc j) l h = (h, omega arith)
unmarked_set (m ∷ marks) (suc i) zero l h = (h, omega arith)
unmarked_set (m ∷ marks) (suc i) (suc j) l h =
    let (e, ne) = unmarked_set marks i j (omega arith) h in (e, omega arith)

-- What holds of the bucket of each key holds of each bucket that is locked, and none was marked.
acquired-All :
    (P : ℕ → Type 0) (keys : List Str) (marks : List ℕ)
    → length marks ≡ table_size
    → All IsHashable keys
    → All (λ key. P (slot (hash key))) keys
    → All (λ j. P j × (get_or marks j 0 ≡ 0)) (acquired keys marks)
unfolding acquired
acquired-All P [] marks l h p = tt
acquired-All P (key ∷ keys) marks l h p =
    let i = slot (hash key) in
    let in_marks : i < length marks = omega (arith, slot-hash-lt key h.0) in
    elim (Bool-cases (get_or marks i 0 == 0)) [
      | inl new ↦
          let unmarked : get_or marks i 0 ≡ 0 = ground arith in
          rw (new, acquired)
            (
              (p.0, unmarked),
              All-imp (acquired keys (set marks i 1))
                  (λ j q. (q.0, (unmarked_set marks i j in_marks q.1).0))
                  (acquired-All P keys (set marks i 1) (rw length-set l) h.1 p.1),
            )
      | inr old ↦ rw (old, acquired) (acquired-All P keys marks l h.1 p.1)
    ]

-- The keys that stand behind `key` have no smaller bucket.
buckets_behind :
    (key : Str) (keys : List Str)
    → IsLower key
    → All IsLower keys
    → All (λ k. strcmp key k ≢ Ordering.gt) keys
    → All (λ k. slot (hash key) ≤ slot (hash k)) keys
buckets_behind key [] low lows le = tt
buckets_behind key (k ∷ keys) low lows le =
    (slot-hash_mono key k low lows.0 le.0, buckets_behind key keys low lows.1 le.1)

acquired-IsAscending :
    (keys : List Str) (marks : List ℕ)
    → length marks ≡ table_size
    → All IsLower keys
    → IsSorted compare_keys keys
    → IsAscending (acquired keys marks)
unfolding acquired compare_keys
acquired-IsAscending [] marks l low s = tt
acquired-IsAscending (key ∷ keys) marks l low s =
    let i = slot (hash key) in
    let ok_key = IsLower-IsHashable key low.0 in
    let ok_keys = All-imp keys IsLower-IsHashable low.1 in
    let in_marks : i < length marks = omega (arith, slot-hash-lt key ok_key) in
    elim (Bool-cases (get_or marks i 0 == 0)) [
      | inl new ↦
          rw (new, acquired)
            (
              All-imp (acquired keys (set marks i 1))
                  (λ j q. omega (arith, q.0, (unmarked_set marks i j in_marks q.1).1))
                  (acquired-All (λ j. i ≤ j) keys (set marks i 1) (rw length-set l) ok_keys
                    (buckets_behind key keys low.0 low.1 s.0)),
              acquired-IsAscending keys (set marks i 1) (rw length-set l) low.1 s.1,
            )
      | inr old ↦ rw (old, acquired) (acquired-IsAscending keys marks l low.1 s.1)
    ]

-- The buckets that a command on `keys` locks, in the order of locking.
unfoldable pub lock_sequence : List Str → List ℕ
lock_sequence keys = acquired (qsort compare_keys keys) no_marks

-- A command whose keys all begin with a lower-case letter takes its bucket locks in ascending order,
-- each once.
pub lock_sequence-IsAscending :
    (keys : List Str) → All IsLower keys → IsAscending (lock_sequence keys)
unfolding lock_sequence compare_keys
lock_sequence-IsAscending keys low =
    acquired-IsAscending (qsort compare_keys keys) no_marks refl
      (qsort-All compare_keys IsLower keys low) (qsort-IsSorted compare_keys Le-total Le-trans keys)

All-slots : (keys : List Str) → All IsHashable keys → All (λ key. slot (hash key) < table_size) keys
All-slots [] h = tt
All-slots (key ∷ keys) h = (slot-hash-lt key h.0, All-slots keys h.1)

-- The buckets of a command are in the table.
pub lock_sequence-lt :
    (keys : List Str) → All IsLower keys → All (λ b. b < table_size) (lock_sequence keys)
unfolding lock_sequence
lock_sequence-lt keys low =
    let sorted = qsort compare_keys keys in
    let ok = All-imp sorted IsLower-IsHashable (qsort-All compare_keys IsLower keys low) in
    All-imp (acquired sorted no_marks) (λ b q. q.0)
      (acquired-All (λ b. b < table_size) sorted no_marks refl ok (All-slots sorted ok))
