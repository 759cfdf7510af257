-- ===== src/Locks/Release.antt =====
-- `unlock_list` gives back exactly the locks that `lock_write_list` or `lock_read_list` took.
use ist_key_value_store.Prelude.{
  ℕ, zero, suc, ◌+◌, ◌-◌, ◌≤◌, ◌<◌, ◌≡◌, refl, List, [], ◌∷◌, some, arith, All, All-imp, ◌==◌,
  get_or, get_or-replicate, if◌then◌else◌,
}
use ist_key_value_store.CString.{Str}
use ist_key_value_store.Table.{HashTable, table_size, hash}
use ist_key_value_store.Table.Hash.{IsHashable, slot}
use ist_key_value_store.Machine.{World, Mode, Held}
use ist_key_value_store.Locks.{
  release, unlock_bucket, lock_list, unlock_from, unlock_list, no_marks,
}
use ist_key_value_store.Locks.Holding.{
  acquired, mark_all, push, IsReady, count_held, count_held-push, AreMarks, count-acquired,
  lock_list-push, mark_all-AreMarks, mark_all-needed,
}

pub release_all : ℕ → List ℕ → List Held → List Held
release_all i [] held = held
release_all i (mark ∷ marks) held =
    release_all (i + 1) marks (if mark == 1 then release i held else held)

pub unlock_from-release_all :
    (t : HashTable) (i : ℕ) (marks : List ℕ) (w : World)
    → IsReady w t
    → unlock_from i marks w ≡ some (0, record w { held = release_all i marks w.held })
unfolding unlock_from unlock_bucket release_all
unlock_from-release_all t i [] w r = refl
unlock_from-release_all t i (mark ∷ marks) w r = ground (
  arith,
  r.at,
  r.unlocks i,
  unlock_from-release_all t (i + 1) marks w r,
  unlock_from-release_all t (i + 1) marks (record w { held = release i w.held })
      (record { at = r.at; locks = r.locks; unlocks = r.unlocks }),
)

count_held-release :
    (i j : ℕ) (held : List Held)
    → count_held j (release i held) ≡ count_held j held - (if i == j then 1 else 0)
unfolding count_held release
count_held-release i j [] = ground arith
count_held-release i j (h ∷ hs) = ground (arith, count_held-release i j hs)

-- How many locks of bucket `j` are given back from bucket `i` on.
owed : ℕ → List ℕ → ℕ → ℕ
owed i [] j = 0
owed i (mark ∷ marks) j =
    (if i == j then (if mark == 1 then 1 else 0) else 0) + owed (i + 1) marks j

count_held-release_all :
    (i j : ℕ) (marks : List ℕ) (held : List Held)
    → count_held j (release_all i marks held) ≡ count_held j held - owed i marks j
unfolding release_all owed
count_held-release_all i j [] held = omega arith
count_held-release_all i j (mark ∷ marks) held = ground (
  arith,
  count_held-release i j held,
  count_held-release_all (i + 1) j marks (if mark == 1 then release i held else held),
)

owed-before : (i j : ℕ) (marks : List ℕ) → j < i → owed i marks j ≡ 0
unfolding owed
owed-before i j [] h = refl
owed-before i j (mark ∷ marks) h = ground (arith, owed-before (i + 1) j marks)

owed-get_or : (i k : ℕ) (marks : List ℕ) → AreMarks marks → owed i marks (i + k) ≡ get_or marks k 0
unfolding owed
owed-get_or i k [] h = refl
owed-get_or i zero (mark ∷ marks) h = ground (arith, owed-before (i + 1) (i + 0) marks, h 0)
owed-get_or i (suc k) (mark ∷ marks) h =
    let e : i + suc k ≡ (i + 1) + k = omega arith in
    rw e (ground (arith, owed-get_or (i + 1) k marks (λ j. h (suc j))))

held-eq-nil : (held : List Held) → ((j : ℕ) → count_held j held ≡ 0) → held ≡ []
unfolding count_held
held-eq-nil [] h = refl
held-eq-nil (x ∷ xs) h = absurd (ground (arith, h x.index))

no_marks-AreMarks : AreMarks no_marks
no_marks-AreMarks j = rw get_or-replicate (omega arith)

owed-zero : (j : ℕ) (marks : List ℕ) → AreMarks marks → owed 0 marks j ≡ get_or marks j 0
owed-zero j marks m = let e : 0 + j ≡ j = omega arith in rw e at (owed-get_or 0 j marks m)

module _ (mode : Mode) (keys : List Str) (h : All IsHashable keys) where
  abbrev locked : List Held
  locked = push mode (acquired keys no_marks) []

  count_held-locked : (j : ℕ) → count_held j locked ≡ get_or (mark_all keys no_marks) j 0
  unfolding count_held
  count_held-locked j = ground (
    arith,
    count_held-push mode j (acquired keys no_marks) [],
    count-acquired keys no_marks j h refl no_marks-AreMarks,
    get_or-replicate {A = ℕ} table_size j 0,
  )

  pub release_all-locked : release_all 0 (mark_all keys no_marks) locked ≡ []
  release_all-locked = held-eq-nil _ λ j. omega (
    arith,
    count_held-release_all 0 j (mark_all keys no_marks) locked,
    count_held-locked j,
    owed-zero j (mark_all keys no_marks) (mark_all-AreMarks keys no_marks no_marks-AreMarks),
  )

pub unlock_list-emptied :
    (t : HashTable) (marks : List ℕ) (w : World)
    → IsReady w t
    → release_all 0 marks w.held ≡ []
    → unlock_list marks w ≡ some (0, record w { held = [] })
unfolding unlock_list
unlock_list-emptied t marks w r e = rw (unlock_from-release_all t 0 marks w r, e)

-- What a command holds between `lock_write_list` or `lock_read_list` and `unlock_list`.
pub record Brackets (mode : Mode) (keys : List Str) (w : World) : Type 0 where
  pub marks : List ℕ
  pub held : List Held
  pub locks : lock_list mode keys no_marks w ≡ some ((0, marks), record w { held = held })
  pub once : (j : ℕ) → count_held j held ≤ 1
  pub needed : All (λ key. count_held (slot (hash key)) held ≡ 1) keys
  pub emptied : release_all 0 marks held ≡ []
  pub unlocks : unlock_list marks (record w { held = held }) ≡ some (0, record w { held = [] })

-- Locking the buckets of keys that have one, with a live table, locks that do not fail and none held,
-- returns 0 and takes each bucket lock once at most and the lock of the bucket of every key, whatever
-- the order and the repetitions of the keys; `unlock_list` on the marks that it leaves then returns 0 and
-- gives all of these locks back.
pub lock_list-Brackets :
    (mode : Mode) (t : HashTable) (keys : List Str) (w : World)
    → IsReady w t
    → w.held ≡ []
    → All IsHashable keys
    → Brackets mode keys w
lock_list-Brackets mode t keys w r none_held h = record {
  marks = marks;
  held = held;
  locks = rw (← none_held) (lock_list-push mode t keys no_marks w r h refl);
  once = λ j. omega (arith, count_held-locked mode keys h j, areMarks j);
  needed =
      All-imp keys
        (λ key one.
          omega
            (arith, count_held-locked mode keys h (slot (hash key)), areMarks (slot (hash key))))
        (mark_all-needed keys no_marks h refl no_marks-AreMarks);
  emptied = release_all-locked mode keys h;
  unlocks =
      unlock_list-emptied t marks (record w { held = held })
        (record { at = r.at; locks = r.locks; unlocks = r.unlocks })
        (release_all-locked mode keys h);
}
  where
    marks : List ℕ
    marks = mark_all keys no_marks

    held : List Held
    held = locked mode keys h

    areMarks : AreMarks marks
    areMarks = mark_all-AreMarks keys no_marks no_marks-AreMarks
