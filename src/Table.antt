-- ===== src/Table.antt =====
-- proj_p2/src/server/kvs.h and the loops over lists of server/kvs.c: the hash table as data.
-- A linked list is the list of its nodes, first node first.
pub mod Hash
pub mod Bucket
pub mod View
use ist_key_value_store.Prelude.{
  ℕ, ◌-◌, List, [], ◌∷◌, Option, none, some, Bool, true, false, ℤ, pos, negsuc, leb, ◌==◌, ◌&&◌,
  if◌then◌else◌,
}
use ist_key_value_store.CString.{Str, str_eq, tolower}

-- `Subscriber`: the file descriptors of the notification pipes.
abbrev pub Subscribers : Type 0
Subscribers = List ℕ

pub record KeyNode : Type 0 where
  pub key : Str
  pub value : Str
  pub subscriber : Subscribers

abbrev pub Bucket : Type 0
Bucket = List KeyNode

-- The locks of the buckets are not in the table: what a thread holds of them is part of `World`.
pub record HashTable : Type 0 where
  pub table : List Bucket

abbrev pub table_size : ℕ
table_size = 26

-- `key[0]`: the NUL of an empty string.
unfoldable pub first_byte : Str → ℕ
first_byte [] = 0
first_byte (c ∷ cs) = c

unfoldable pub hash : Str → ℤ
unfolding tolower first_byte
hash key =
    let first_letter = tolower (first_byte key) in
    if leb b'a' first_letter && leb first_letter b'z'
    then pos (first_letter - b'a')
    else if leb b'0' first_letter && leb first_letter b'9'
    then pos (first_letter - b'0')
    else negsuc 0

-- The search loop: the first node whose key is `key`.
unfoldable pub find_node : Str → Bucket → Option KeyNode
find_node key [] = none
find_node key (node ∷ next) = if str_eq node.key key then some node else find_node key next

-- What a write through the pointer that the search found does to its list.
unfoldable pub update_node : Str → (KeyNode → KeyNode) → Bucket → Bucket
update_node key f [] = []
update_node key f (node ∷ next) =
    if str_eq node.key key then f node ∷ next else node ∷ update_node key f next

-- The node that the search found is unlinked, by `table[index]` or by `prevNode->next`.
unfoldable pub unlink_node : Str → Bucket → Bucket
unlink_node key [] = []
unlink_node key (node ∷ next) = if str_eq node.key key then next else node ∷ unlink_node key next

-- The test for a subscriber that is already on the list.
unfoldable pub is_subscribed : ℕ → Subscribers → Bool
is_subscribed fd [] = false
is_subscribed fd (s ∷ ss) = if s == fd then true else is_subscribed fd ss

unfoldable pub remove_fd : ℕ → Subscribers → Subscribers
remove_fd fd [] = []
remove_fd fd (s ∷ ss) = if s == fd then ss else s ∷ remove_fd fd ss
