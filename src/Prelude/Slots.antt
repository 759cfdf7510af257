-- ===== src/Prelude/Slots.antt =====
-- Lists of optional entries: what stands where once an entry is changed.
use Prim.Native.Nat.{ℕ, zero, suc}
use mathlib.Core.Path.{◌≡◌, refl, ap}
use mathlib.Core.Logic.{◌≢◌, ◌⊎◌, inl, inr}
use mathlib.Core.Option.{Option, none, some}
use mathlib.Core.List.{List, [], ◌∷◌}
use native.Mathlib.Omega.{arith}
use ist_key_value_store.Prelude.Lists.{get_or, set}

module _ {A : Type 0} where
  pub get_or-set_at :
      (entries : List (Option A)) (a : ℕ) (c d : A)
      → get_or entries a none ≡ some c
      → get_or (set entries a (some d)) a none ≡ some d
  get_or-set_at [] a c d at = cc
  get_or-set_at (x ∷ xs) zero c d at = refl
  get_or-set_at (x ∷ xs) (suc a) c d at = get_or-set_at xs a c d at

  pub set-get_or :
      (entries : List (Option A)) (a : ℕ) (c : A)
      → get_or entries a none ≡ some c
      → set entries a (some c) ≡ entries
  set-get_or [] a c at = refl
  set-get_or (x ∷ xs) zero c at = cc
  set-get_or (x ∷ xs) (suc a) c at = ap (λ ys. x ∷ ys) (set-get_or xs a c at)

  -- What is at `b` once the entry at `a` is changed.
  pub set-cases :
      (entries : List (Option A)) (a b : ℕ) (c c' d : A)
      → get_or entries a none ≡ some c
      → get_or (set entries a (some c')) b none ≡ some d
      → ((b ≡ a) × (d ≡ c')) ⊎ ((b ≢ a) × (get_or entries b none ≡ some d))
  set-cases [] a b c c' d at h = cc
  set-cases (x ∷ xs) zero zero c c' d at h = inl (refl, cc)
  set-cases (x ∷ xs) zero (suc b) c c' d at h = inr (omega arith, h)
  set-cases (x ∷ xs) (suc a) zero c c' d at h = inr (omega arith, h)
  set-cases (x ∷ xs) (suc a) (suc b) c c' d at h = elim (set-cases xs a b c c' d at h) [
    | inl (same, it) ↦ inl (ap suc same, it)
    | inr (other, it) ↦ inr (omega (arith, other), it)
  ]

  pub set-others :
      (entries : List (Option A)) (a b : ℕ) (c' d : A)
      → get_or entries b none ≡ some d
      → (b ≡ a) ⊎ (get_or (set entries a (some c')) b none ≡ some d)
  set-others [] a b c' d h = cc
  set-others (x ∷ xs) zero zero c' d h = inl refl
  set-others (x ∷ xs) zero (suc b) c' d h = inr h
  set-others (x ∷ xs) (suc a) zero c' d h = inr h
  set-others (x ∷ xs) (suc a) (suc b) c' d h = elim (set-others xs a b c' d h) [
    | inl same ↦ inl (ap suc same)
    | inr it ↦ inr it
  ]
