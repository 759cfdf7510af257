-- ===== src/Operations/Sort/Keys.antt =====
-- Sorting pairs by their keys sorts the keys: `kvs_write` locks in the order of `kvs_read`.
use ist_key_value_store.Prelude.{◌≡◌, refl, ap, ◌∙◌, List, [], ◌∷◌, map, Ordering}
use ist_key_value_store.Operations.Sort.{place, insert, qsort}

module _ {ℓ κ} {A : Type ℓ} {B : Type κ} (f : A → B) (cmp : A → A → Ordering)
    (cmp' : B → B → Ordering) (agree : (x y : A) → cmp x y ≡ cmp' (f x) (f y)) where
  map-place :
      (o : Ordering) (x y : A) (ys rest : List A)
      → map f (place o x y ys rest) ≡ place o (f x) (f y) (map f ys) (map f rest)
  unfolding place
  map-place Ordering.gt x y ys rest = refl
  map-place Ordering.lt x y ys rest = refl
  map-place Ordering.eq x y ys rest = refl

  map-insert : (x : A) (ys : List A) → map f (insert cmp x ys) ≡ insert cmp' (f x) (map f ys)
  unfolding insert
  map-insert x [] = refl
  map-insert x (y ∷ ys) =
      map-place (cmp x y) x y ys (insert cmp x ys) ∙ rw (map-insert x ys, agree x y) refl

  pub map-qsort : (xs : List A) → map f (qsort cmp xs) ≡ qsort cmp' (map f xs)
  unfolding qsort
  map-qsort [] = refl
  map-qsort (x ∷ xs) = map-insert x (qsort cmp xs) ∙ ap (insert cmp' (f x)) (map-qsort xs)
