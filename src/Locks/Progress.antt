-- ===== src/Locks/Progress.antt =====
-- Locking in ascending order: no deadlock. Locking in opposite orders: a deadlock.
use ist_key_value_store.Prelude.{
  ℕ, zero, suc, ◌+◌, ◌≤◌, ◌<◌, ◌≡◌, ◌≢◌, ◌⊎◌, inl, inr, refl, ap, true, false, Bool-cases, List, [],
  ◌∷◌, All, arith,
}
use mathlib.Core.Logic.{if_pos, if_neg}
use mathlib.Core.Path.{subst}
use native.Mathlib.Decide.{ℕ_discrete}
use ist_key_value_store.Table.{table_size}
use ist_key_value_store.Locks.Holding.{count}
use ist_key_value_store.Locks.Order.{IsAscending}
use ist_key_value_store.Locks.System.{
  Thread, System, update, excludes, Step, lock, unlock, Reach, here, later, IsDone,
}

-- Every lock that is held was taken before every lock that is to come, in ascending order.
pub record IsOrdered (th : Thread) : Type 0 where
  pub ascending : IsAscending th.todo
  pub below : All (λ h. All (λ b. h < b) th.todo) th.held
  pub small : All (λ b. b < table_size) th.todo

below_rest :
    (b : ℕ) (rest held : List ℕ)
    → All (λ h. All (λ c. h < c) (b ∷ rest)) held
    → All (λ h. All (λ c. h < c) rest) held
below_rest b rest [] h = tt
below_rest b rest (x ∷ held) h = (h.0.1, below_rest b rest held h.1)

locked-IsOrdered :
    (th : Thread) (b : ℕ) (rest : List ℕ)
    → th.todo ≡ b ∷ rest
    → IsOrdered th
    → IsOrdered (record th { held = b ∷ th.held; todo = rest })
locked-IsOrdered th b rest e h =
    let asc : IsAscending (b ∷ rest) = subst IsAscending e h.ascending in
    let small : All (λ c. c < table_size) (b ∷ rest) =
      subst (All (λ c. c < table_size)) e h.small in
    let below : All (λ x. All (λ c. x < c) (b ∷ rest)) th.held =
      subst (λ todo. All (λ x. All (λ c. x < c) todo) th.held) e h.below in
    record { ascending = asc.1; below = (asc.0, below_rest b rest th.held below); small = small.1 }

update-IsOrdered :
    (s : System) (i : ℕ) (th : Thread) (j : ℕ)
    → IsOrdered th
    → IsOrdered (s j)
    → IsOrdered (update s i th j)
update-IsOrdered s i th j h k = elim (ℕ_discrete i j) [
  | yes p ↦ rw (if_pos _ p) h
  | no p ↦ rw (if_neg _ p) k
]

Step-IsOrdered :
    {n : ℕ} {s t : System} → Step n s t → ((i : ℕ) → IsOrdered (s i)) → (i : ℕ) → IsOrdered (t i)
Step-IsOrdered {s} (lock i b rest lt e free) h j =
    update-IsOrdered s i _ j (locked-IsOrdered (s i) b rest e (h i)) (h j)
Step-IsOrdered {s} (unlock i lt e ne) h j =
    update-IsOrdered s i _ j
      (record { ascending = (h i).ascending; below = tt; small = (h i).small }) (h j)

Reach-IsOrdered :
    {n : ℕ} {s t : System} → ((i : ℕ) → IsOrdered (s i)) → Reach n s t → (i : ℕ) → IsOrdered (t i)
Reach-IsOrdered h here i = h i
Reach-IsOrdered h (later r st) i = Step-IsOrdered st (Reach-IsOrdered h r) i

-- Some thread below `n` keeps `th` from locking `b`, or none does.
find_blocker :
    (s : System) (th : Thread) (b n : ℕ)
    → ((j : ℕ) → j < n → excludes (s j) th b ≡ false)
      ⊎ ((j : ℕ) × (j < n) × (excludes (s j) th b ≡ true))
find_blocker s th b zero = inl λ j lt. absurd (omega arith)
find_blocker s th b (suc n) = go (Bool-cases (excludes (s n) th b)) (find_blocker s th b n)
  where
    go :
        (excludes (s n) th b ≡ true) ⊎ (excludes (s n) th b ≡ false)
        → ((j : ℕ) → j < n → excludes (s j) th b ≡ false)
          ⊎ ((j : ℕ) × (j < n) × (excludes (s j) th b ≡ true))
        → ((j : ℕ) → j < suc n → excludes (s j) th b ≡ false)
          ⊎ ((j : ℕ) × (j < suc n) × (excludes (s j) th b ≡ true))
    go (inl yes_n) _ = inr (n, omega arith, yes_n)
    go (inr no_n) (inr (j, lt, e)) = inr (j, omega arith, e)
    go (inr no_n) (inl none_below) = inl λ j lt. ground (arith, none_below j)

holds-of-excludes :
    (other th : Thread) (b : ℕ) → excludes other th b ≡ true → count b other.held ≢ 0
unfolding excludes
holds-of-excludes other th b h = ground arith

lt_of_held :
    (b c : ℕ) (rest held : List ℕ)
    → count b held ≢ 0
    → All (λ h. All (λ d. h < d) (c ∷ rest)) held
    → b < c
unfolding count
lt_of_held b c rest [] h below = absurd (h refl)
lt_of_held b c rest (x ∷ held) h below = ground (arith, lt_of_held b c rest held, below.0.0)

nil_or_cons : (l : List ℕ) → (l ≡ []) ⊎ ((b : ℕ) × (rest : List ℕ) × (l ≡ b ∷ rest))
nil_or_cons [] = inl refl
nil_or_cons (b ∷ rest) = inr (b, rest, refl)

-- A thread that waits for `b` can go on, or a thread that holds `b` can, or one that holds what that
-- one waits for: each waits for a larger bucket than the one before.
progress :
    (k n : ℕ) (s : System) (i b : ℕ) (rest : List ℕ)
    → ((j : ℕ) → IsOrdered (s j))
    → i < n
    → (s i).todo ≡ b ∷ rest
    → table_size ≤ b + k
    → (t : System) × Step n s t
unfolding count
progress zero n s i b rest ord lt e k =
    let small : All (λ c. c < table_size) (b ∷ rest) =
      subst (All (λ c. c < table_size)) e (ord i).small in
    absurd (omega arith)
progress (suc k) n s i b rest ord lt e le = elim (find_blocker s (s i) b n) [
  | inl free ↦ (_, lock i b rest lt e free)
  | inr (j, lt_j, blocked) ↦
      let holds = holds-of-excludes (s j) (s i) b blocked in
      elim (nil_or_cons (s j).todo) [
        | inl finished ↦ (_, unlock j lt_j finished (λ empty. holds (ap (count b) empty)))
        | inr (c, rest', e') ↦
            let below : All (λ h. All (λ d. h < d) (c ∷ rest')) (s j).held =
              subst (λ todo. All (λ h. All (λ d. h < d) todo) (s j).held) e' (ord j).below in
            progress k n s j c rest' ord lt_j e'
              (omega (arith, lt_of_held b c rest' (s j).held holds below))
      ]
]

-- Threads that take their locks in ascending order never deadlock: in every state that they can reach,
-- as long as one of them is not done, some thread can take a step.
pub ascending_no_deadlock :
    (n : ℕ) (s t : System)
    → ((i : ℕ) → IsOrdered (s i))
    → Reach n s t
    → (i : ℕ) → i < n
    → ¬ IsDone (t i)
    → (u : System) × Step n t u
ascending_no_deadlock n s t ord r i lt busy = elim (nil_or_cons (t i).todo) [
  | inl finished ↦ (_, unlock i lt finished (λ empty. busy (finished, empty)))
  | inr (b, rest, e) ↦ progress table_size n t i b rest (Reach-IsOrdered ord r) lt e (omega arith)
]
