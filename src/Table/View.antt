-- ===== src/Table/View.antt =====
-- The table as a map from keys to nodes, its invariant, and writes to the bucket of one key.
use ist_key_value_store.Prelude.{
  ℕ, ◌≤◌, ◌<◌, ◌≡◌, Option, none, some, [], arith, if◌then◌else◌, ◌==◌, get_or, set, length,
  length-set, get_or-set_self, get_or-set_ne,
}
use native.Mathlib.Decide.{ℕ_discrete}
use mathlib.Core.Option
use ist_key_value_store.CString.{Str, str_eq}
use ist_key_value_store.CString.Order.{str_eq_iff}
use ist_key_value_store.Table.{KeyNode, Bucket, HashTable, Subscribers, table_size, hash, find_node}
use ist_key_value_store.Table.Hash.{IsHashable, slot, slot-hash-lt}
use ist_key_value_store.Table.Bucket.{count_key}

-- The list that the code searches for `k`.
abbrev pub bucket_of : HashTable → Str → Bucket
bucket_of t k = get_or t.table (slot (hash k)) []

unfoldable pub node_of : HashTable → Str → Option KeyNode
node_of t k = find_node k (bucket_of t k)

-- The abstract map: the value under each key.
unfoldable pub view : HashTable → Str → Option Str
unfolding node_of
view t k = Option.map (λ n. n.value) (node_of t k)

abbrev pub subscribers_or_nil : Option KeyNode → Subscribers
subscribers_or_nil none = []
subscribers_or_nil (some n) = n.subscriber

-- Who is told of a change of `k`.
unfoldable pub subscribers_of : HashTable → Str → Subscribers
unfolding node_of
subscribers_of t k = subscribers_or_nil (node_of t k)

-- A key occurs once at most, and only in the bucket that it hashes to.
pub record IsWellFormed (t : HashTable) : Type 0 where
  pub width : length t.table ≡ table_size
  pub placed :
      (k : Str) (i : ℕ) → count_key k (get_or t.table i []) ≤ (if slot (hash k) == i then 1 else 0)

abbrev pub with_bucket : HashTable → Str → Bucket → HashTable
with_bucket t k b = record { table = set t.table (slot (hash k)) b }

module _ (t : HashTable) (wf : IsWellFormed t) (k : Str) (ok_key : IsHashable k) (b : Bucket) where
  pub in_table : slot (hash k) < length t.table
  in_table = omega (arith, slot-hash-lt k ok_key, wf.width)

  get_or-with_bucket :
      (i : ℕ)
      → get_or (with_bucket t k b).table i []
        ≡ (if slot (hash k) == i then b else get_or t.table i [])
  get_or-with_bucket i = elim (ℕ_discrete (slot (hash k)) i) [
    | yes e ↦ rw (← e) (ground (arith, get_or-set_self t.table (slot (hash k)) b [] in_table))
    | no n ↦ ground (arith, get_or-set_ne t.table (slot (hash k)) i b [] n)
  ]

  -- A change of the bucket of `k` that changes only what is found under `k` changes the map there.
  pub node_of-with_bucket :
      (o : Option KeyNode)
      → ((j : Str) → find_node j b ≡ (if str_eq k j then o else find_node j (bucket_of t k)))
      → (j : Str) → node_of (with_bucket t k b) j ≡ (if str_eq k j then o else node_of t j)
  unfolding node_of
  node_of-with_bucket o h j =
      ground (arith, get_or-with_bucket (slot (hash j)), h j, str_eq_iff k j)

  pub with_bucket-IsWellFormed :
      ((j : Str) → count_key j b ≤ (if slot (hash j) == slot (hash k) then 1 else 0))
      → IsWellFormed (with_bucket t k b)
  with_bucket-IsWellFormed h = record {
    width = omega (arith, length-set t.table (slot (hash k)) b, wf.width);
    placed = λ j i. ground (arith, get_or-with_bucket i, wf.placed j i, h j);
  }

-- A change of the node under `k` alone, read as a change of the map and of the subscribers.
module _ (t t' : HashTable) (k : Str) (o : Option KeyNode)
    (changed : (j : Str) → node_of t' j ≡ (if str_eq k j then o else node_of t j)) where
  pub view-changed :
      (j : Str) → view t' j ≡ (if str_eq k j then Option.map (λ n. n.value) o else view t j)
  unfolding view
  view-changed j = ground (arith, changed j)

  pub subscribers_of-changed :
      (j : Str)
      → subscribers_of t' j ≡ (if str_eq k j then subscribers_or_nil o else subscribers_of t j)
  unfolding subscribers_of
  subscribers_of-changed j = ground (arith, changed j)
