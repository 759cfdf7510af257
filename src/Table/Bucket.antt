-- ===== src/Table/Bucket.antt =====
-- The loops over one list: what they find after an update, an insertion and an unlinking.
use ist_key_value_store.Prelude.{ℕ, ◌+◌, ◌≤◌, ◌≡◌, refl, none, some, [], ◌∷◌, arith, if◌then◌else◌}
use mathlib.Core.Option
use ist_key_value_store.CString.{Str, str_eq}
use ist_key_value_store.CString.Order.{str_eq_iff}
use ist_key_value_store.Table.{KeyNode, Bucket, find_node, update_node, unlink_node}

-- How many nodes of a list have the key `k`.
unfoldable pub count_key : Str → Bucket → ℕ
count_key k [] = 0
count_key k (node ∷ next) = (if str_eq node.key k then 1 else 0) + count_key k next

pub find_node-eq-none : (k : Str) (b : Bucket) → count_key k b ≡ 0 → find_node k b ≡ none
unfolding count_key find_node
find_node-eq-none k [] h = refl
find_node-eq-none k (node ∷ next) h = ground (arith, find_node-eq-none k next)

pub count_key-eq-zero : (k : Str) (b : Bucket) → find_node k b ≡ none → count_key k b ≡ 0
unfolding count_key find_node
count_key-eq-zero k [] h = refl
count_key-eq-zero k (node ∷ next) h = ground (arith, count_key-eq-zero k next)

-- The node that the search finds has the key.
pub key-find_node : (k : Str) (b : Bucket) (n : KeyNode) → find_node k b ≡ some n → n.key ≡ k
unfolding find_node
key-find_node k [] n h = ground arith
key-find_node k (node ∷ next) n h = ground (arith, key-find_node k next n, str_eq_iff node.key k)

module _ (k j : Str) (f : KeyNode → KeyNode) (keeps : (n : KeyNode) → (f n).key ≡ n.key) where
  pub find_node-update_node :
      (b : Bucket)
      → find_node j (update_node k f b)
        ≡ (if str_eq k j then Option.map f (find_node k b) else find_node j b)
  unfolding find_node update_node
  find_node-update_node [] = ground arith
  find_node-update_node (node ∷ next) = ground (
    arith,
    keeps node,
    find_node-update_node next,
    str_eq_iff node.key k,
    str_eq_iff node.key j,
    str_eq_iff (f node).key j,
    str_eq_iff k j,
  )

  pub count_key-update_node : (b : Bucket) → count_key j (update_node k f b) ≡ count_key j b
  unfolding count_key update_node
  count_key-update_node [] = refl
  count_key-update_node (node ∷ next) = ground (arith, keeps node, count_key-update_node next)

module _ (k j : Str) where
  pub find_node-unlink_node :
      (b : Bucket)
      → count_key j b ≤ 1
      → find_node j (unlink_node k b) ≡ (if str_eq k j then none else find_node j b)
  unfolding find_node unlink_node count_key
  find_node-unlink_node [] h = ground arith
  find_node-unlink_node (node ∷ next) h = ground (
    arith,
    find_node-unlink_node next,
    find_node-eq-none j next,
    str_eq_iff node.key k,
    str_eq_iff node.key j,
    str_eq_iff k j,
  )

  pub count_key-unlink_node : (b : Bucket) → count_key j (unlink_node k b) ≤ count_key j b
  unfolding count_key unlink_node
  count_key-unlink_node [] = ground arith
  count_key-unlink_node (node ∷ next) = ground (arith, count_key-unlink_node next)
