-- ===== src/Locks/Commands.antt =====
-- Concurrent commands of server/operations.c: when they deadlock and when they cannot.
use ist_key_value_store.Prelude.{
  ℕ, zero, suc, ◌<◌, ◌≡◌, ◌≢◌, refl, sym, ap, List, [], ◌∷◌, All, arith, false,
}
use native.Mathlib.Decide.{ℕ_discrete}
use mathlib.Core.Path.{subst, fun_ext}
use ist_key_value_store.CString.{Str}
use ist_key_value_store.Table.Hash.{IsLower}
use ist_key_value_store.Machine.{Mode, writing}
use ist_key_value_store.Locks.Holding.{count}
use ist_key_value_store.Locks.Order.{lock_sequence, lock_sequence-IsAscending, lock_sequence-lt}
use ist_key_value_store.Locks.System.{
  System, update, excludes, Step, lock, unlock, Reach, here, later, IsDone,
}
use ist_key_value_store.Locks.Progress.{ascending_no_deadlock}

-- A command of a thread: `writing` for `kvs_write` and `kvs_delete`, `reading` for `kvs_read`.
pub record Command : Type 0 where
  pub mode : Mode
  pub keys : List Str

-- Every thread is about to lock the first bucket of its command.
abbrev pub start : (ℕ → Command) → System
start commands i = record {
  mode = (commands i).mode;
  held = [];
  todo = lock_sequence (commands i).keys;
}

-- Commands whose keys all begin with a lower-case letter never deadlock, however many threads run
-- them and however they interleave: as long as one is not done, some thread can take a step.
pub lower_case_no_deadlock :
    (n : ℕ) (commands : ℕ → Command) (t : System)
    → ((i : ℕ) → All IsLower (commands i).keys)
    → Reach n (start commands) t
    → (i : ℕ) → i < n
    → ¬ IsDone (t i)
    → (u : System) × Step n t u
lower_case_no_deadlock n commands t low r i lt busy =
    ascending_no_deadlock n (start commands) t
      (λ j. record {
        ascending = lock_sequence-IsAscending (commands j).keys (low j);
        below = tt;
        small = lock_sequence-lt (commands j).keys (low j);
      })
      r i lt busy

-- Two writing commands, one after the other with the buckets `a` and `b` in opposite orders.
abbrev pub crossed : ℕ → ℕ → System
crossed a b zero = record { mode = writing; held = []; todo = a ∷ b ∷ [] }
crossed a b (suc i) = record { mode = writing; held = []; todo = b ∷ a ∷ [] }

-- The state in which each has its first lock.
abbrev pub stuck : ℕ → ℕ → System
stuck a b =
    update (update (crossed a b) 0 (record { mode = writing; held = a ∷ []; todo = b ∷ [] })) 1
      (record { mode = writing; held = b ∷ []; todo = a ∷ [] })

module _ (a b : ℕ) (ne : a ≢ b) where
  half : System
  half = update (crossed a b) 0 (record { mode = writing; held = a ∷ []; todo = b ∷ [] })

  first_lock : Step 2 (crossed a b) half
  unfolding half
  first_lock = lock 0 a (b ∷ []) (omega arith) refl free
    where
      free : (j : ℕ) → j < 2 → excludes (crossed a b j) (crossed a b 0) a ≡ false
      free zero lt = unfold excludes count in refl
      free (suc j) lt = unfold excludes count in refl

  second_lock : Step 2 half (stuck a b)
  unfolding half ℕ_discrete
  second_lock = lock 1 b (a ∷ []) (omega arith) refl free
    where
      free : (j : ℕ) → j < 2 → excludes (half j) (half 1) b ≡ false
      free zero lt = unfold excludes count in ground arith
      free (suc j) lt = unfold excludes count in ground arith

  no-Step : (u : System) → ¬ Step 2 (stuck a b) u
  unfolding ℕ_discrete excludes count
  no-Step u (lock zero c rest lt e free) = ground (arith, free 1)
  no-Step u (lock (suc zero) c rest lt e free) = ground (arith, free 0)
  no-Step u (lock (suc (suc i)) c rest lt e free) = absurd (omega arith)
  no-Step u (unlock zero lt e _) = cc
  no-Step u (unlock (suc zero) lt e _) = cc
  no-Step u (unlock (suc (suc i)) lt e _) = absurd (omega arith)

  -- Two writers that lock the same two buckets in opposite orders can deadlock: they reach a state in
  -- which neither is done and no step is possible.
  pub opposite_orders_deadlock :
      Reach 2 (crossed a b) (stuck a b)
      × ¬ IsDone (stuck a b 0)
      × ¬ IsDone (stuck a b 1)
      × ((u : System) → ¬ Step 2 (stuck a b) u)
  unfolding ℕ_discrete
  opposite_orders_deadlock =
      (later (later here first_lock) second_lock, (λ d. cc), (λ d. cc), no-Step)

-- Two commands that write, on the threads 0 and 1.
abbrev pub two_writers : List Str → List Str → ℕ → Command
two_writers first second zero = record { mode = writing; keys = first }
two_writers first second (suc i) = record { mode = writing; keys = second }

start-crossed :
    (first second : List Str) (a b : ℕ)
    → lock_sequence first ≡ a ∷ b ∷ []
    → lock_sequence second ≡ b ∷ a ∷ []
    → (i : ℕ) → start (two_writers first second) i ≡ crossed a b i
start-crossed first second a b e f zero = ap (λ l. record { mode = writing; held = []; todo = l }) e
start-crossed first second a b e f (suc i) =
    ap (λ l. record { mode = writing; held = []; todo = l }) f

-- Two writing commands whose sorted keys lead to the same two buckets in opposite orders can deadlock:
-- they reach a state in which neither is done and no step is possible.
pub opposite_commands_deadlock :
    (first second : List Str) (a b : ℕ)
    → a ≢ b
    → lock_sequence first ≡ a ∷ b ∷ []
    → lock_sequence second ≡ b ∷ a ∷ []
    → (t : System) × Reach 2 (start (two_writers first second)) t
      × ¬ IsDone (t 0)
      × ¬ IsDone (t 1)
      × ((u : System) → ¬ Step 2 t u)
opposite_commands_deadlock first second a b ne e f =
    let d = opposite_orders_deadlock a b ne in
    let reached : Reach 2 (start (two_writers first second)) (stuck a b) =
      subst (λ s. Reach 2 s (stuck a b)) (sym (fun_ext (start-crossed first second a b e f))) d.0 in
    (stuck a b, reached, d.1, d.2, d.3)
