-- ===== src/Examples/FirstDeliveryRuns.antt =====
-- Runs of the first delivery.
use ist_key_value_store.Prelude.{
  ◌≡◌, ◌≢◌, refl, [], ◌∷◌, ◌++◌, none, some, true, false, arith, if◌then◌else◌,
}
use ist_key_value_store.CString.{Str}
use ist_key_value_store.Table.{first_byte}
use ist_key_value_store.Table.View.{view}
use ist_key_value_store.Operations
use ist_key_value_store.Operations.{compare_keys}
use ist_key_value_store.Operations.Sort.{qsort}
use ist_key_value_store.Operations.Text.{read_text}
use ist_key_value_store.Jobs.{JobState, out_of_fuel}
use ist_key_value_store.FirstDelivery.Operations.{kvs_write, kvs_delete, kvs_read}
use ist_key_value_store.FirstDelivery.Silent.{unsent}
use ist_key_value_store.FirstDelivery.Same.{unsent-kvs_write, unsent-kvs_delete}
use ist_key_value_store.FirstDelivery.Read.{any_stored, kvs_read-any_stored}
use ist_key_value_store.FirstDelivery.Jobs.{run_job}
use ist_key_value_store.FirstDelivery.Ends.{run_job_terminates}
use ist_key_value_store.Examples.Fixtures.{
  ant, bee, one, two, two_pairs, two_pairs-IsWellFormed, world, world-IsReady,
}

unsent-kvs_write_example :
    unsent (kvs_write ((ant, two) ∷ []) world)
    ≡ unsent (Operations.kvs_write ((ant, two) ∷ []) world)
unsent-kvs_write_example = unsent-kvs_write ((ant, two) ∷ []) world [] refl

unsent-kvs_delete_example :
    unsent (kvs_delete (ant ∷ one ∷ []) world)
    ≡ unsent (Operations.kvs_delete (ant ∷ one ∷ []) world)
unsent-kvs_delete_example = unsent-kvs_delete (ant ∷ one ∷ []) world []

kvs_read-any_stored_example :
    let sorted = qsort compare_keys (bee ∷ one ∷ []) in
    kvs_read (bee ∷ one ∷ []) world ≡ (
      if any_stored (view two_pairs) sorted
      then none
      else some (
        0,
        record world {
          out = world.out ++ (b'[' ∷ read_text (view two_pairs) sorted ++ (b']' ∷ b'\n' ∷ []));
        },
      ))
unfolding first_byte
kvs_read-any_stored_example =
    kvs_read-any_stored two_pairs two_pairs-IsWellFormed world (bee ∷ one ∷ []) world-IsReady refl
      (refl, (refl, tt)) (omega arith, (omega arith, tt))

abbrev start : JobState
start = record {
  world = world;
  global_error = false;
  global_held = 0;
  backup_counter = 1;
  children = 0;
  file_backups = 1;
  backups = [];
  waits = [];
}

abbrev not_show : Str
not_show = b'S' ∷ b'H' ∷ b'\n' ∷ []

run_job_terminates_example : run_job 4 (λ _. true) not_show start ≢ out_of_fuel
run_job_terminates_example = run_job_terminates 4 (λ _. true) not_show start (omega arith)
