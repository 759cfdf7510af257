-- ===== src/Examples/ClientRuns.antt =====
-- Runs of the sessions of clients.
use ist_key_value_store.Prelude.{
  false, ℕ, zero, suc, some, none, ◌∙◌, sym, get_or, ◌≡◌, refl, [], ◌∷◌, arith, true,
}
use ist_key_value_store.CString.{Str, strlen}
use ist_key_value_store.Table.{HashTable, is_subscribed, first_byte}
use ist_key_value_store.Table.View.{subscribers_of}
use ist_key_value_store.Clients.Subscribe.{Subscribes, kvs_subscribe-Subscribes}
use ist_key_value_store.Clients.Forget.{is_listed}
use ist_key_value_store.Machine.{World, Client}
use ist_key_value_store.Clients.Tracking.{IsAt, IsTracked, AreServed, count_entry, one_if_some}
use ist_key_value_store.Clients.Tracking.Join.{AreOpened, Joins, kvs_connect-Joins}
use ist_key_value_store.Clients.Tracking.Leave.{Leaves, kvs_disconnect-Leaves}
use ist_key_value_store.Clients.Tracking.Restart.{Restarts, clean_all_clients-Restarts}
use ist_key_value_store.Clients.Tracking.Series.{
  subscribe, write, perform, IsAllowed, IsServed, perform-IsServed, start, next, perform-reached,
}
use ist_key_value_store.Connections.{ClientInfo}
use ist_key_value_store.Clients.{op_code_disconnect}
use ist_key_value_store.Requests.{served, serve_client}
use ist_key_value_store.Requests.Serve
use ist_key_value_store.Requests.Serve.{messages}
use ist_key_value_store.Requests.Whole.{IsGood, IsGone, serve_client-IsGone}
use ist_key_value_store.Examples.Fixtures.{
  ant, bee, ant_client, one, two_pairs, two_pairs-IsWellFormed, two_pairs-AllOnce,
  two_pairs-subscribers_of, world, world-IsReady,
}

kvs_subscribe-Subscribes_example : (t' : HashTable) × Subscribes world two_pairs 0 ant_client bee t'
unfolding first_byte strlen
kvs_subscribe-Subscribes_example =
    kvs_subscribe-Subscribes world two_pairs 0 ant_client bee world-IsReady refl refl refl
      two_pairs-IsWellFormed refl refl

two_pairs-is_listed :
    (j : Str) → is_subscribed 7 (subscribers_of two_pairs j) ≡ true → is_listed j (ant ∷ []) ≡ true
unfolding is_listed is_subscribed
two_pairs-is_listed j h = ground (arith, two_pairs-subscribers_of j)

world-IsAt : (a : ℕ) (c : Client) → IsAt a c world → (a ≡ 0) × (c ≡ ant_client)
world-IsAt zero c at = (refl, cc)
world-IsAt (suc a) c at = cc

ant_client-IsTracked : IsTracked ant_client two_pairs
unfolding first_byte
ant_client-IsTracked = record { hashable = (refl, tt); tracked = two_pairs-is_listed }

world-registered :
    (a : ℕ)
    → count_entry a (some 0 ∷ none ∷ []) ≡ one_if_some (get_or (some ant_client ∷ []) a none)
unfolding count_entry
world-registered zero = refl
world-registered (suc a) = ground arith

two_pairs-AreServed : AreServed two_pairs world
unfolding count_entry is_subscribed
two_pairs-AreServed = record {
  sound = record {
    ready = world-IsReady;
    none_held = refl;
    memory = refl;
    well_formed = two_pairs-IsWellFormed;
    once = two_pairs-AllOnce;
  };
  writes = λ a c at. refl;
  tracks = λ a c at. rw ((world-IsAt a c at).1) ant_client-IsTracked;
  own_pipe = λ a b c d at it ne. absurd (ne ((world-IsAt a c at).0 ∙ sym (world-IsAt b d it).0));
  owned = λ fd j there. (0, ant_client, refl, ground (arith, two_pairs-subscribers_of j));
  registered = world-registered;
}

kvs_disconnect-Leaves_example :
    (t' : HashTable) × (w' : World) × Leaves two_pairs world 0 ant_client two_pairs-AreServed refl
      t' w'
kvs_disconnect-Leaves_example =
    kvs_disconnect-Leaves two_pairs world 0 ant_client two_pairs-AreServed refl

abbrev ant_paths : ClientInfo
ant_paths = record { req_fifo = ant; resp_fifo = bee; notif_fifo = one }

pipes_of_bee : AreOpened world ant bee one
pipes_of_bee = record {
  fd_req = refl;
  fd_resp = refl;
  fd_notif = refl;
  writes = refl;
  is_new = λ b d at e. ground (arith, e, world-IsAt b d at);
}

kvs_connect-Joins_example :
    (a : ℕ) × (w' : World) × Joins two_pairs world two_pairs-AreServed ant bee one a w'
kvs_connect-Joins_example =
    kvs_connect-Joins two_pairs world two_pairs-AreServed ant bee one pipes_of_bee refl

subscribe_bee-IsAllowed : IsAllowed (subscribe 0 bee) world
unfolding first_byte strlen
subscribe_bee-IsAllowed = ((ant_client, refl), refl, refl)

subscribe_bee : (w' : World) × (perform (subscribe 0 bee) world ≡ some (tt, w')) × IsServed w'
subscribe_bee =
    perform-IsServed (subscribe 0 bee) world (two_pairs, two_pairs-AreServed)
      subscribe_bee-IsAllowed

write_bee-IsAllowed : IsAllowed (write ((bee, one) ∷ [])) subscribe_bee.0
unfolding first_byte
write_bee-IsAllowed = (refl, tt)

perform-reached_example :
    IsServed subscribe_bee.0
    × (v : World) × (perform (write ((bee, one) ∷ [])) subscribe_bee.0 ≡ some (tt, v))
    × IsServed v
perform-reached_example =
    perform-reached (write ((bee, one) ∷ [])) (two_pairs, two_pairs-AreServed)
      (next (subscribe 0 bee) start subscribe_bee-IsAllowed subscribe_bee.1) write_bee-IsAllowed

bee_request : IsGood (Serve.subscribe bee)
unfolding first_byte strlen
bee_request = (
  (
    ((λ e. omega (arith, e)), ((λ e. omega (arith, e)), ((λ e. omega (arith, e)), tt))),
    omega arith,
  ),
  refl,
  refl,
)

serve_client-IsGone_example :
    (a : ℕ) × (t' : HashTable) × (w' : World) × (serve_client 3
        (λ _. (false, false))
        ant_paths
        (messages (Serve.subscribe bee ∷ Serve.unsubscribe bee ∷ []) (op_code_disconnect ∷ []))
        world
      ≡ some (served, w'))
    × IsGone 9 a two_pairs world t' w'
serve_client-IsGone_example =
    serve_client-IsGone 3 (λ _. (false, false)) ant_paths
      (Serve.subscribe bee ∷ Serve.unsubscribe bee ∷ []) two_pairs world two_pairs-AreServed
      pipes_of_bee refl (bee_request, (bee_request, tt)) (λ i. refl) (omega arith)

clean_all_clients-Restarts_example :
    (t' : HashTable) × (w' : World) × Restarts two_pairs world t' w'
clean_all_clients-Restarts_example = clean_all_clients-Restarts two_pairs world two_pairs-AreServed
