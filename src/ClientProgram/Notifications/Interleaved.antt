-- ===== src/ClientProgram/Notifications/Interleaved.antt =====
-- client/main.c and server/kvs.c: what a client prints if two threads of the server notify it at once.
use ist_key_value_store.Prelude.{List, [], ◌∷◌}
use ist_key_value_store.Machine.{Sent}

-- The calls of two threads, in some order that keeps the order of each.
pub data Interleaves : List Sent → List Sent → List Sent → Type 0 where
  done : Interleaves [] [] []
  first :
      (s : Sent) {xs ys zs : List Sent} → Interleaves xs ys zs → Interleaves (s ∷ xs) ys (s ∷ zs)
  second :
      (s : Sent) {xs ys zs : List Sent} → Interleaves xs ys zs → Interleaves xs (s ∷ ys) (s ∷ zs)
