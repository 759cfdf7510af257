-- ===== src/Locks/System.antt =====
-- Commands of several threads that take their bucket locks at the same time, in any interleaving.
-- Each thread is between `lock_write_list` or `lock_read_list` and the end of `unlock_list` of
-- server/operations.c; the work in between needs no further lock.
use ist_key_value_store.Prelude.{
  ℕ, ◌<◌, ◌≡◌, ◌≢◌, List, [], ◌∷◌, Bool, true, false, not, ◌&&◌, ◌==◌,
}
use mathlib.Core.Logic.{ite}
use native.Mathlib.Decide.{ℕ_discrete}
use ist_key_value_store.Machine.{Mode, reading}
use ist_key_value_store.Locks.Holding.{count}

-- A command: the buckets that it holds, the latest first, and those that it has yet to lock, in order.
pub record Thread : Type 0 where
  pub mode : Mode
  pub held : List ℕ
  pub todo : List ℕ

-- Thread `i`, for each `i` below the number of threads.
abbrev pub System : Type 0
System = ℕ → Thread

abbrev pub update : System → ℕ → Thread → System
update s i th j = ite (ℕ_discrete i j) th (s j)

abbrev shared : Mode → Mode → Bool
shared reading reading = true
shared _ _ = false

-- Whether `other` keeps `th` from locking `b`: it holds the lock, and not both are readers.
unfoldable pub excludes : Thread → Thread → ℕ → Bool
excludes other th b = not (shared other.mode th.mode) && not (count b other.held == 0)

pub data Step (n : ℕ) (s : System) : System → Type 0 where
  -- one more round of `lock_list`
  lock :
      (i b : ℕ) (rest : List ℕ)
      → i < n
      → (s i).todo ≡ b ∷ rest
      → ((j : ℕ) → j < n → excludes (s j) (s i) b ≡ false)
      → Step n s (update s i (record (s i) { held = b ∷ (s i).held; todo = rest }))
  -- the work and `unlock_list`
  unlock :
      (i : ℕ)
      → i < n
      → (s i).todo ≡ []
      → (s i).held ≢ []
      → Step n s (update s i (record (s i) { held = [] }))

pub data Reach (n : ℕ) (s : System) : System → Type 0 where
  here : Reach n s s
  later : {t u : System} → Reach n s t → Step n t u → Reach n s u

abbrev pub IsDone : Thread → Type 0
IsDone th = (th.todo ≡ []) × (th.held ≡ [])
