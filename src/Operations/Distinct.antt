-- ===== src/Operations/Distinct.antt =====
-- Pairs with different keys: the order of writing makes no difference to what the keys read as.
use ist_key_value_store.Prelude.{
  ℕ, ◌+◌, ◌≤◌, ◌≡◌, refl, ap, ◌∙◌, List, [], ◌∷◌, Option, arith, if◌then◌else◌,
}
use mathlib.Core.Logic.{∥∥₁_elim}
use mathlib.Core.List.{Perm, Permᴰ}
use ist_key_value_store.CString.{Str, str_eq}
use ist_key_value_store.Operations.{Pair}
use ist_key_value_store.Operations.Write.{written}

unfoldable pub count_pairs : Str → List Pair → ℕ
count_pairs j [] = 0
count_pairs j ((key, value) ∷ pairs) = (if str_eq key j then 1 else 0) + count_pairs j pairs

-- No two pairs have one key.
abbrev pub AreDistinct : List Pair → Type 0
AreDistinct pairs = (j : Str) → count_pairs j pairs ≤ 1

count_pairs-perm : (j : Str) {xs ys : List Pair} → Permᴰ xs ys → count_pairs j xs ≡ count_pairs j ys
unfolding count_pairs
count_pairs-perm j Permᴰ.nil = refl
count_pairs-perm j (Permᴰ.cons {a} {b} {l₁} {l₂} e p) = ground (arith, count_pairs-perm j p)
count_pairs-perm j (Permᴰ.swap {a} {b} {a'} {b'} {l} e f) = ground arith
count_pairs-perm j (Permᴰ.trans p q) = count_pairs-perm j p ∙ count_pairs-perm j q

written_permᴰ :
    (j : Str) {xs ys : List Pair}
    → Permᴰ xs ys
    → count_pairs j xs ≤ 1
    → (before : Option Str) → written j xs before ≡ written j ys before
unfolding count_pairs
written_permᴰ j Permᴰ.nil h before = refl
written_permᴰ j (Permᴰ.cons {a} {b} {l₁} {l₂} e p) h before =
    rw e (written_permᴰ j p (omega arith) _)
written_permᴰ j (Permᴰ.swap {a} {b} {a'} {b'} {l} e f) h before =
    rw (e, f) (ap (written j l) (ground arith))
written_permᴰ j (Permᴰ.trans p q) h before =
    written_permᴰ j p h before ∙ written_permᴰ j q (rw (← count_pairs-perm j p) h) before

Option_str_set : IsSet (Option Str)
Option_str_set = hlevel

pub written_perm :
    (j : Str) (xs ys : List Pair) (before : Option Str)
    → Perm xs ys
    → count_pairs j xs ≤ 1
    → written j xs before ≡ written j ys before
written_perm j xs ys before p h = ∥∥₁_elim p (Option_str_set _ _) (λ d. written_permᴰ j d h before)

ℕ_set : IsSet ℕ
ℕ_set = hlevel

-- The sorted pairs are different too, so sorting does not change what is written.
pub written_of_perm :
    (j : Str) (xs ys : List Pair) (before : Option Str)
    → Perm xs ys
    → AreDistinct ys
    → written j xs before ≡ written j ys before
written_of_perm j xs ys before p d =
    let same : count_pairs j xs ≡ count_pairs j ys =
      ∥∥₁_elim p (ℕ_set _ _) (λ q. count_pairs-perm j q) in
    written_perm j xs ys before p (omega (arith, same, d j))
