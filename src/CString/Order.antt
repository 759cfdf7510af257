-- ===== src/CString/Order.antt =====
-- `strcmp` decides equality and is a total order.
use ist_key_value_store.Prelude.{◌≡◌, refl, ◌↔◌, true, [], ◌∷◌, Ordering, arith}
use ist_key_value_store.CString.{Str, strcmp, str_eq}

strcmp_refl : (a : Str) → strcmp a a ≡ Ordering.eq
unfolding strcmp
strcmp_refl [] = refl
strcmp_refl (c ∷ cs) = ground (arith, strcmp_refl cs)

strcmp_eq : (a b : Str) → strcmp a b ≡ Ordering.eq → a ≡ b
unfolding strcmp
strcmp_eq [] [] h = refl
strcmp_eq [] (d ∷ ds) h = cc
strcmp_eq (c ∷ cs) [] h = cc
strcmp_eq (c ∷ cs) (d ∷ ds) h = ground (arith, strcmp_eq cs ds)

-- `strcmp` is 0 exactly on equal strings.
pub str_eq_iff : (a b : Str) → (str_eq a b ≡ true) ↔ (a ≡ b)
unfolding str_eq
str_eq_iff a b = ground (arith, strcmp_eq a b, strcmp_refl a)

pub str_eq_refl : (a : Str) → str_eq a a ≡ true
str_eq_refl a = (str_eq_iff a a).1 refl

abbrev pub Le : Str → Str → Type 0
Le a b = ¬ (strcmp a b ≡ Ordering.gt)

pub Le-total : (a b : Str) → strcmp a b ≡ Ordering.gt → Le b a
unfolding strcmp
Le-total [] [] h = cc
Le-total [] (d ∷ ds) h = cc
Le-total (c ∷ cs) [] h = λ e. cc
Le-total (c ∷ cs) (d ∷ ds) h = ground (arith, Le-total cs ds)

pub Le-trans : (a b c : Str) → Le a b → Le b c → Le a c
unfolding strcmp
Le-trans [] b [] p q = λ e. cc
Le-trans [] b (z ∷ c) p q = λ e. cc
Le-trans (x ∷ a) [] c p q = absurd (p refl)
Le-trans (x ∷ a) (y ∷ b) [] p q = absurd (q refl)
Le-trans (x ∷ a) (y ∷ b) (z ∷ c) p q = ground (arith, Le-trans a b c)
