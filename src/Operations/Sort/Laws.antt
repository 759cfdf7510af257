-- ===== src/Operations/Sort/Laws.antt =====
-- What the program relies on of `qsort`: a permutation, in order.
use ist_key_value_store.Prelude.{◌≡◌, ◌≢◌, refl, List, [], ◌∷◌, Ordering, All}
use mathlib.Core.List.{Perm}
use mathlib.Core.List.Perm
use ist_key_value_store.Operations.Sort.{place, insert, qsort}

place-perm {ℓ} :
    {A : Type ℓ} (o : Ordering) (x y : A) (ys rest : List A)
    → Perm rest (x ∷ ys)
    → Perm (place o x y ys rest) (x ∷ y ∷ ys)
unfolding place
place-perm Ordering.gt x y ys rest p = Perm.trans (Perm.cons y p) (Perm.swap x y ys)
place-perm _ x y ys rest p = Perm.refl _

place-All {ℓ κ} :
    {A : Type ℓ} (P : A → Type κ) (o : Ordering) (x y : A) (ys rest : List A)
    → P x
    → P y
    → All P ys
    → All P rest
    → All P (place o x y ys rest)
unfolding place
place-All P Ordering.gt x y ys rest px py pys pr = (py, pr)
place-All P _ x y ys rest px py pys pr = (px, (py, pys))

module _ {ℓ} {A : Type ℓ} (cmp : A → A → Ordering) where
  insert-perm : (x : A) (ys : List A) → Perm (insert cmp x ys) (x ∷ ys)
  unfolding insert
  insert-perm x [] = Perm.refl (x ∷ [])
  insert-perm x (y ∷ ys) = place-perm (cmp x y) x y ys (insert cmp x ys) (insert-perm x ys)

  pub qsort-perm : (xs : List A) → Perm (qsort cmp xs) xs
  unfolding qsort
  qsort-perm [] = Perm.refl []
  qsort-perm (x ∷ xs) = Perm.trans (insert-perm x (qsort cmp xs)) (Perm.cons x (qsort-perm xs))

  insert-All {κ} : (P : A → Type κ) (x : A) (ys : List A) → P x → All P ys → All P (insert cmp x ys)
  unfolding insert
  insert-All P x [] p h = (p, tt)
  insert-All P x (y ∷ ys) p h =
      place-All P (cmp x y) x y ys (insert cmp x ys) p h.0 h.1 (insert-All P x ys p h.1)

  -- Sorting keeps what holds of all elements.
  pub qsort-All {κ} : (P : A → Type κ) (xs : List A) → All P xs → All P (qsort cmp xs)
  unfolding qsort
  qsort-All P [] h = tt
  qsort-All P (x ∷ xs) h = insert-All P x (qsort cmp xs) h.0 (qsort-All P xs h.1)

  -- No element is greater than a later one.
  abbrev pub IsSorted : List A → Type ℓ
  IsSorted [] = Unit
  IsSorted (x ∷ xs) = All (λ y. cmp x y ≢ Ordering.gt) xs × IsSorted xs

  module _ (total : (a b : A) → cmp a b ≡ Ordering.gt → cmp b a ≢ Ordering.gt)
      (trans : (a b c : A)
        → cmp a b ≢ Ordering.gt
        → cmp b c ≢ Ordering.gt
        → cmp a c ≢ Ordering.gt) where
    below-All :
        (x y : A) (ys : List A)
        → cmp x y ≢ Ordering.gt
        → All (λ z. cmp y z ≢ Ordering.gt) ys
        → All (λ z. cmp x z ≢ Ordering.gt) ys
    below-All x y [] h hs = tt
    below-All x y (z ∷ ys) h hs = (trans x y z h hs.0, below-All x y ys h hs.1)

    place-IsSorted :
        (o : Ordering) (x y : A) (ys : List A)
        → cmp x y ≡ o
        → IsSorted (y ∷ ys)
        → IsSorted (insert cmp x ys)
        → IsSorted (place o x y ys (insert cmp x ys))
    unfolding place
    place-IsSorted Ordering.gt x y ys e s r = (insert-All _ x ys (total x y e) s.0, r)
    place-IsSorted Ordering.lt x y ys e s r =
        let h : cmp x y ≢ Ordering.gt = λ g. cc in ((h, below-All x y ys h s.0), s)
    place-IsSorted Ordering.eq x y ys e s r =
        let h : cmp x y ≢ Ordering.gt = λ g. cc in ((h, below-All x y ys h s.0), s)

    insert-IsSorted : (x : A) (ys : List A) → IsSorted ys → IsSorted (insert cmp x ys)
    unfolding insert
    insert-IsSorted x [] s = (tt, tt)
    insert-IsSorted x (y ∷ ys) s = place-IsSorted (cmp x y) x y ys refl s (insert-IsSorted x ys s.1)

    -- For a total preorder the result is sorted.
    pub qsort-IsSorted : (xs : List A) → IsSorted (qsort cmp xs)
    unfolding qsort
    qsort-IsSorted [] = tt
    qsort-IsSorted (x ∷ xs) = insert-IsSorted x (qsort cmp xs) (qsort-IsSorted xs)
