-- ===== src/Operations/Sort.antt =====
-- `qsort` of <stdlib.h>, as insertion sort. The C standard leaves the order of equal elements open;
-- here they keep theirs.
pub mod Laws
pub mod Keys
use ist_key_value_store.Prelude.{List, [], ◌∷◌, Ordering}

-- `x` goes before the rest unless it is greater than its first element `y`.
place {ℓ} : {A : Type ℓ} → Ordering → A → A → List A → List A → List A
place Ordering.gt x y ys rest = y ∷ rest
place _ x y ys rest = x ∷ y ∷ ys

module _ {ℓ} {A : Type ℓ} (cmp : A → A → Ordering) where
  insert : A → List A → List A
  unfolding place
  insert x [] = x ∷ []
  insert x (y ∷ ys) = place (cmp x y) x y ys (insert x ys)

  unfoldable pub qsort : List A → List A
  unfolding insert
  qsort [] = []
  qsort (x ∷ xs) = insert x (qsort xs)
