-- ===== src/Examples/LockRuns.antt =====
-- Runs of the bucket locks of server/operations.c, and two commands that deadlock.
use ist_key_value_store.Prelude.{ℕ, ◌≡◌, refl, [], ◌∷◌, arith, All}
use ist_key_value_store.CString.{Str, strcmp, tolower}
use ist_key_value_store.Table.{first_byte, hash}
use ist_key_value_store.Table.Hash.{IsLower}
use ist_key_value_store.Machine.{writing}
use ist_key_value_store.Locks.Holding.{acquired}
use ist_key_value_store.Locks.Release.{Brackets, lock_list-Brackets}
use ist_key_value_store.Locks.Order.{IsAscending, lock_sequence, lock_sequence-IsAscending}
use ist_key_value_store.Locks.System.{System, Step, Reach, here, IsDone}
use ist_key_value_store.Locks.Commands.{
  Command, start, two_writers, lower_case_no_deadlock, opposite_commands_deadlock,
}
use ist_key_value_store.Operations.{compare_keys}
use ist_key_value_store.Operations.Sort.{qsort}
use ist_key_value_store.Examples.Fixtures.{ant, bee, two_pairs, world, world-IsReady}

lock_list-Brackets_example : Brackets writing (ant ∷ bee ∷ ant ∷ []) world
unfolding first_byte
lock_list-Brackets_example =
    lock_list-Brackets writing two_pairs (ant ∷ bee ∷ ant ∷ []) world world-IsReady refl
      (refl, (refl, (refl, tt)))

ant-bee-IsLower : All IsLower (bee ∷ ant ∷ [])
unfolding first_byte
ant-bee-IsLower = ((omega arith, omega arith), ((omega arith, omega arith), tt))

lock_sequence-IsAscending_example : IsAscending (lock_sequence (bee ∷ ant ∷ []))
lock_sequence-IsAscending_example = lock_sequence-IsAscending (bee ∷ ant ∷ []) ant-bee-IsLower

lock_sequence-ant-bee : lock_sequence (bee ∷ ant ∷ []) ≡ 0 ∷ 1 ∷ []
unfolding lock_sequence acquired qsort compare_keys strcmp hash tolower first_byte
lock_sequence-ant-bee = refl

-- Every thread locks the buckets of `ant` and `bee`.
abbrev same_commands : ℕ → Command
same_commands i = record { mode = writing; keys = bee ∷ ant ∷ [] }

lower_case_no_deadlock_example : (u : System) × Step 2 (start same_commands) u
unfolding lock_sequence acquired qsort compare_keys strcmp hash tolower first_byte
lower_case_no_deadlock_example =
    lower_case_no_deadlock 2 same_commands (start same_commands) (λ i. ant-bee-IsLower) here 0
      (omega arith) (λ d. cc)

abbrev upper_b : Str
upper_b = b'B' ∷ []

abbrev lower_b : Str
lower_b = b'b' ∷ []

abbrev lower_a : Str
lower_a = b'a' ∷ []

-- `WRITE [(B,x)(a,y)]` and `WRITE [(a,x)(b,y)]`.
opposite_commands_deadlock_example :
    (t : System) × Reach 2 (start (two_writers (upper_b ∷ lower_a ∷ []) (lower_a ∷ lower_b ∷ []))) t
    × ¬ IsDone (t 0)
    × ¬ IsDone (t 1)
    × ((u : System) → ¬ Step 2 t u)
unfolding lock_sequence acquired qsort compare_keys strcmp hash tolower first_byte
opposite_commands_deadlock_example =
    opposite_commands_deadlock (upper_b ∷ lower_a ∷ []) (lower_a ∷ lower_b ∷ []) 1 0 (omega arith)
      refl refl
