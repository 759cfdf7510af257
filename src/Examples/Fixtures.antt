-- ===== src/Examples/Fixtures.antt =====
-- A small table and a state with it, on which the examples run.
use ist_key_value_store.Prelude.{[], ◌∷◌, ◌≡◌, refl, if◌then◌else◌, false, arith, some, none}
use ist_key_value_store.CString.{Str, str_eq, tolower}
use ist_key_value_store.CString.Order.{str_eq_iff}
use ist_key_value_store.Table.{KeyNode, HashTable, first_byte, find_node, hash}
use ist_key_value_store.Table.Bucket.{count_key}
use ist_key_value_store.Table.View.{
  IsWellFormed, with_bucket, with_bucket-IsWellFormed, node_of, node_of-with_bucket, subscribers_of,
  subscribers_of-changed,
}
use ist_key_value_store.Table.Hash.{slot}
use ist_key_value_store.Machine.{Client, World, live}
use ist_key_value_store.Kvs.Create.{empty_table, empty_table-IsWellFormed, empty_bucket}
use ist_key_value_store.Kvs.SubscriberList.{count_fd}
use ist_key_value_store.Clients.Forget.{AllOnce}
use ist_key_value_store.Locks.Holding.{IsReady}

abbrev pub ant : Str
ant = b'a' ∷ b'n' ∷ b't' ∷ []

abbrev pub bee : Str
bee = b'b' ∷ b'e' ∷ b'e' ∷ []

abbrev pub one : Str
one = b'1' ∷ []

abbrev pub two : Str
two = b'2' ∷ []

abbrev pub ant_node : KeyNode
ant_node = record { key = ant; value = one; subscriber = 7 ∷ [] }

abbrev pub bee_node : KeyNode
bee_node = record { key = bee; value = two; subscriber = [] }

abbrev pub one_pair : HashTable
one_pair = with_bucket empty_table ant (ant_node ∷ [])

abbrev pub two_pairs : HashTable
two_pairs = with_bucket one_pair bee (bee_node ∷ [])

one_pair-IsWellFormed : IsWellFormed one_pair
unfolding count_key first_byte
one_pair-IsWellFormed =
    with_bucket-IsWellFormed empty_table empty_table-IsWellFormed ant refl (ant_node ∷ [])
      λ j. ground (arith, str_eq_iff ant j)

pub two_pairs-IsWellFormed : IsWellFormed two_pairs
unfolding count_key first_byte
two_pairs-IsWellFormed =
    with_bucket-IsWellFormed one_pair one_pair-IsWellFormed bee refl (bee_node ∷ [])
      λ j. ground (arith, str_eq_iff bee j)

-- The client behind the pipe 7.
abbrev pub ant_client : Client
ant_client = record { fd_req = 5; fd_resp = 6; fd_notif = 7; subscriptions = ant ∷ [] }

abbrev pub world : World
world = record {
  kvs_table = live two_pairs;
  held = [];
  lock_error = λ _. false;
  unlock_error = λ _. false;
  init_error = λ _. false;
  allocs = [];
  sent = [];
  out = [];
  sessions = record {
    heap = some ant_client ∷ [];
    connected_clients = some 0 ∷ none ∷ [];
    opens = λ _. 9;
    write_error = λ _. false;
    close_error = λ _. false;
    responses = [];
    closed = [];
  };
}

pub world-IsReady : IsReady world two_pairs
world-IsReady = record { at = refl; locks = λ i. refl; unlocks = λ i. refl }

ant_changed :
    (j : Str) → node_of one_pair j ≡ (if str_eq ant j then some ant_node else node_of empty_table j)
unfolding first_byte find_node
ant_changed =
    node_of-with_bucket empty_table empty_table-IsWellFormed ant refl (ant_node ∷ [])
      (some ant_node) λ j. ground arith

bee_changed :
    (j : Str) → node_of two_pairs j ≡ (if str_eq bee j then some bee_node else node_of one_pair j)
unfolding first_byte find_node hash tolower
bee_changed =
    node_of-with_bucket one_pair one_pair-IsWellFormed bee refl (bee_node ∷ []) (some bee_node)
      λ j. ground arith

pub two_pairs-subscribers_of :
    (j : Str)
    → subscribers_of two_pairs j
      ≡ (if str_eq bee j then [] else if str_eq ant j then 7 ∷ [] else [])
unfolding subscribers_of node_of find_node
two_pairs-subscribers_of j = ground (
  arith,
  subscribers_of-changed one_pair two_pairs bee (some bee_node) bee_changed j,
  subscribers_of-changed empty_table one_pair ant (some ant_node) ant_changed j,
  empty_bucket (slot (hash j)),
)

pub two_pairs-AllOnce : AllOnce two_pairs
unfolding count_fd
two_pairs-AllOnce j fd = ground (arith, two_pairs-subscribers_of j)
