-- ===== src/Locks/Holding.antt =====
-- Which bucket locks a command holds, and that it gives all of them back.
use ist_key_value_store.Prelude.{
  ℕ, zero, suc, ◌+◌, ◌≤◌, ◌≡◌, refl, List, [], ◌∷◌, true, false, some, arith, All, Bool-cases, inl,
  inr, ◌==◌, get_or, set, length, length-set, get_or-set_self, get_or-set_ne, if◌then◌else◌,
}
use ist_key_value_store.CString.{Str}
use ist_key_value_store.Table.{HashTable, table_size, hash}
use ist_key_value_store.Table.Hash.{IsHashable, slot, hash-eq-pos, slot-hash-lt}
use ist_key_value_store.Machine.{World, live, Mode, Held}
use ist_key_value_store.Locks.{lock_bucket, lock_list}

-- The buckets that `lock_list` locks, in the order of locking.
unfoldable pub acquired : List Str → List ℕ → List ℕ
acquired [] marks = []
acquired (key ∷ keys) marks =
    let i = slot (hash key) in
    elim (get_or marks i 0 == 0) [
      | true ↦ i ∷ acquired keys (set marks i 1)
      | false ↦ acquired keys marks
    ]

-- The marks that it leaves.
unfoldable pub mark_all : List Str → List ℕ → List ℕ
mark_all [] marks = marks
mark_all (key ∷ keys) marks =
    let i = slot (hash key) in
    elim (get_or marks i 0 == 0) [
      | true ↦ mark_all keys (set marks i 1)
      | false ↦ mark_all keys marks
    ]

unfoldable pub push : Mode → List ℕ → List Held → List Held
push mode [] held = held
push mode (i ∷ is) held = push mode is (record { index = i; mode = mode } ∷ held)

-- The state in which locking and unlocking work.
pub record IsReady (w : World) (t : HashTable) : Type 0 where
  pub at : w.kvs_table ≡ live t
  pub locks : (i : ℕ) → w.lock_error i ≡ false
  pub unlocks : (i : ℕ) → w.unlock_error i ≡ false

pub lock_list-push :
    (mode : Mode) (t : HashTable) (keys : List Str) (marks : List ℕ) (w : World)
    → IsReady w t
    → All IsHashable keys
    → length marks ≡ table_size
    → lock_list mode keys marks w
      ≡ some ((0, mark_all keys marks), record w { held = push mode (acquired keys marks) w.held })
unfolding lock_list lock_bucket mark_all acquired push
lock_list-push mode t [] marks w r h l = refl
lock_list-push mode t (key ∷ keys) marks w r h l =
    let i = slot (hash key) in
    ground (
      arith,
      hash-eq-pos key h.0,
      slot-hash-lt key h.0,
      r.locks i,
      r.at,
      lock_list-push mode t keys marks w r h.1 l,
      lock_list-push mode t keys (set marks i 1)
          (record w { held = record { index = i; mode = mode } ∷ w.held })
          (record { at = r.at; locks = r.locks; unlocks = r.unlocks }) h.1,
      length-set marks i 1,
    )

unfoldable pub count : ℕ → List ℕ → ℕ
count j [] = 0
count j (i ∷ is) = (if i == j then 1 else 0) + count j is

unfoldable pub count_held : ℕ → List Held → ℕ
count_held j [] = 0
count_held j (h ∷ hs) = (if h.index == j then 1 else 0) + count_held j hs

pub count_held-push :
    (mode : Mode) (j : ℕ) (is : List ℕ) (held : List Held)
    → count_held j (push mode is held) ≡ count j is + count_held j held
unfolding push count count_held
count_held-push mode j [] held = omega arith
count_held-push mode j (i ∷ is) held =
    omega (arith, count_held-push mode j is (record { index = i; mode = mode } ∷ held))

-- Marks are 0 or 1.
abbrev pub AreMarks : List ℕ → Type 0
AreMarks marks = (j : ℕ) → get_or marks j 0 ≤ 1

pub set-AreMarks : (marks : List ℕ) (i : ℕ) → AreMarks marks → AreMarks (set marks i 1)
set-AreMarks [] i h j = h j
set-AreMarks (m ∷ marks) zero h zero = omega arith
set-AreMarks (m ∷ marks) zero h (suc j) = h (suc j)
set-AreMarks (m ∷ marks) (suc i) h zero = h zero
set-AreMarks (m ∷ marks) (suc i) h (suc j) = set-AreMarks marks i (λ k. h (suc k)) j

-- A bucket is locked once if a key needs it and it was not marked, and not at all otherwise.
pub count-acquired :
    (keys : List Str) (marks : List ℕ) (j : ℕ)
    → All IsHashable keys
    → length marks ≡ table_size
    → AreMarks marks
    → count j (acquired keys marks) + get_or marks j 0 ≡ get_or (mark_all keys marks) j 0
unfolding acquired mark_all count
count-acquired [] marks j h l m = omega arith
count-acquired (key ∷ keys) marks j h l m =
    let i = slot (hash key) in
    ground (
      arith,
      slot-hash-lt key h.0,
      length-set marks i 1,
      get_or-set_self marks i 1 0,
      get_or-set_ne marks i j 1 0,
      count-acquired keys marks j h.1 l m,
      count-acquired keys (set marks i 1) j h.1 (rw length-set l) (set-AreMarks marks i m),
    )

pub mark_all-AreMarks :
    (keys : List Str) (marks : List ℕ) → AreMarks marks → AreMarks (mark_all keys marks)
unfolding mark_all
mark_all-AreMarks [] marks m j = m j
mark_all-AreMarks (key ∷ keys) marks m j =
    let i = slot (hash key) in
    ground (
      arith,
      mark_all-AreMarks keys marks m j,
      mark_all-AreMarks keys (set marks i 1) (set-AreMarks marks i m) j,
    )

-- A bucket is marked at the end if it was at the start, or if a key needs it.
mark_all_mono :
    (keys : List Str) (marks : List ℕ) (j : ℕ)
    → All IsHashable keys
    → length marks ≡ table_size
    → AreMarks marks
    → get_or marks j 0 ≤ get_or (mark_all keys marks) j 0
mark_all_mono keys marks j h l m = omega (arith, count-acquired keys marks j h l m)

marks_step :
    (key : Str) (keys : List Str) (marks : List ℕ)
    → IsHashable key
    → All IsHashable keys
    → length marks ≡ table_size
    → AreMarks marks
    → 1 ≤ get_or (mark_all (key ∷ keys) marks) (slot (hash key)) 0
unfolding mark_all
marks_step key keys marks ok_key h l m =
    let i = slot (hash key) in
    ground (
      arith,
      slot-hash-lt key ok_key,
      get_or-set_self marks i 1 0,
      mark_all_mono keys (set marks i 1) i h (rw length-set l) (set-AreMarks marks i m),
      mark_all_mono keys marks i h l m,
    )

pub mark_all-needed :
    (keys : List Str) (marks : List ℕ)
    → All IsHashable keys
    → length marks ≡ table_size
    → AreMarks marks
    → All (λ key. 1 ≤ get_or (mark_all keys marks) (slot (hash key)) 0) keys
unfolding mark_all
mark_all-needed [] marks h l m = tt
mark_all-needed (key ∷ keys) marks h l m =
    let i = slot (hash key) in
    let rest : All (λ k. 1 ≤ get_or (mark_all (key ∷ keys) marks) (slot (hash k)) 0) keys =
      elim (Bool-cases (get_or marks i 0 == 0)) [
        | inl new ↦
            rw (new, mark_all)
              (mark_all-needed keys (set marks i 1) h.1 (rw length-set l) (set-AreMarks marks i m))
        | inr old ↦ rw (old, mark_all) (mark_all-needed keys marks h.1 l m)
      ] in
    (marks_step key keys marks h.0 h.1 l m, rest)
