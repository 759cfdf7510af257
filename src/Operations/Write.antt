-- ===== src/Operations/Write.antt =====
-- server/operations.c: `kvs_write`.
use ist_key_value_store.Prelude.{
  ◌≡◌, refl, ap, ◌∙◌, List, [], ◌∷◌, ◌++◌, append_assoc, append-nil, Option, some, map, arith, All,
  if◌then◌else◌,
}
use ist_key_value_store.CString.{Str, str_eq}
use ist_key_value_store.Table.{HashTable}
use ist_key_value_store.Table.Hash.{IsHashable}
use ist_key_value_store.Table.View.{view, subscribers_of, IsWellFormed}
use ist_key_value_store.Machine.{World, live, writing, Sent}
use ist_key_value_store.Kvs.Notices.{notices}
use ist_key_value_store.Kvs.Pairs.{write_pair-Writes}
use ist_key_value_store.Locks.Holding.{IsReady}
use ist_key_value_store.Locks.Release.{lock_list-Brackets, unlock_list-emptied}
use ist_key_value_store.Operations.{Pair, compare_pairs, write_pairs, kvs_write}
use ist_key_value_store.Operations.Sort.{qsort}
use ist_key_value_store.Operations.Sort.Laws.{qsort-All}

-- The last pair of the list with the key `j` decides what `j` reads as.
abbrev pub written : Str → List Pair → Option Str → Option Str
written j [] before = before
written j ((key, value) ∷ pairs) before =
    written j pairs (if str_eq key j then some value else before)

-- Each pair is sent to the subscribers of its key, in the order of the list.
abbrev pub written_notices : HashTable → List Pair → List Sent
written_notices t [] = []
written_notices t ((key, value) ∷ pairs) =
    notices (subscribers_of t key) key value ++ written_notices t pairs

abbrev pub AreHashable : List Pair → Type 0
AreHashable = All (λ p. IsHashable p.0)

written_notices_congr :
    (t u : HashTable) (pairs : List Pair)
    → ((j : Str) → subscribers_of t j ≡ subscribers_of u j)
    → written_notices t pairs ≡ written_notices u pairs
written_notices_congr t u [] h = refl
written_notices_congr t u ((key, value) ∷ pairs) h = rw (h key, written_notices_congr t u pairs h)

-- What writing `pairs` in their order leaves of `t` and sends.
pub record WritesAll (w : World) (t : HashTable) (pairs : List Pair) (t' : HashTable) : Type 0 where
  pub run :
      write_pairs pairs w
      ≡ some (tt, record w { kvs_table = live t'; sent = w.sent ++ written_notices t pairs })
  pub well_formed : IsWellFormed t'
  pub reads : (j : Str) → view t' j ≡ written j pairs (view t j)
  pub subscribers : (j : Str) → subscribers_of t' j ≡ subscribers_of t j

pub write_pairs-WritesAll :
    (pairs : List Pair) (w : World) (t : HashTable)
    → w.kvs_table ≡ live t
    → w.allocs ≡ []
    → IsWellFormed t
    → AreHashable pairs
    → (t' : HashTable) × WritesAll w t pairs t'
unfolding write_pairs
write_pairs-WritesAll [] w t at memory wf h = (
  t,
  record {
    run = ground (arith, at, append-nil w.sent);
    well_formed = wf;
    reads = λ j. refl;
    subscribers = λ j. refl;
  },
)
write_pairs-WritesAll ((key, value) ∷ pairs) w t at memory wf h =
    let (t₁, first) = write_pair-Writes w t key at memory wf h.0 value in
    let w₁ : World = record w {
      kvs_table = live t₁;
      sent = w.sent ++ notices (subscribers_of t key) key value;
    } in
    let (t₂, rest) = write_pairs-WritesAll pairs w₁ t₁ refl memory first.well_formed h.1 in
    (
      t₂,
      record {
        run = ground (
          arith,
          first.run,
          rest.run,
          written_notices_congr t₁ t pairs first.subscribers,
          append_assoc w.sent (notices (subscribers_of t key) key value) (written_notices t pairs),
        );
        well_formed = rest.well_formed;
        reads = λ j. rest.reads j ∙ ap (written j pairs) (first.reads j);
        subscribers = λ j. rest.subscribers j ∙ first.subscribers j;
      },
    )

AreHashable-map : (pairs : List Pair) → AreHashable pairs → All IsHashable (map (λ p. p.0) pairs)
AreHashable-map [] h = tt
AreHashable-map (p ∷ pairs) h = (h.0, AreHashable-map pairs h.1)

-- What `kvs_write` does.
pub record WritesSorted (w : World) (t : HashTable) (pairs : List Pair) (t' : HashTable)
    : Type 0 where
  pub run :
      kvs_write pairs w
      ≡ some (
        0,
        record w {
          kvs_table = live t';
          sent = w.sent ++ written_notices t (qsort compare_pairs pairs);
        },
      )
  pub well_formed : IsWellFormed t'
  pub reads : (j : Str) → view t' j ≡ written j (qsort compare_pairs pairs) (view t j)
  pub subscribers : (j : Str) → subscribers_of t' j ≡ subscribers_of t j

-- `kvs_write` of pairs whose keys have buckets, on a well-formed table, with locks and memory that do
-- not fail and no bucket lock held, returns 0 and holds no bucket lock afterwards; the table is well
-- formed; what a key reads as is decided by the last pair with that key in the sorted order, and is as
-- before without one; and every pair was sent, in that order, to the subscribers of its key.
pub kvs_write_lem :
    (w : World) (t : HashTable) (pairs : List Pair)
    → IsReady w t
    → w.held ≡ []
    → w.allocs ≡ []
    → IsWellFormed t
    → AreHashable pairs
    → (t' : HashTable) × WritesSorted w t pairs t'
kvs_write_lem w t pairs r none_held memory wf h =
    let sorted = qsort compare_pairs pairs in
    let h' = qsort-All compare_pairs (λ p. IsHashable p.0) pairs h in
    let b =
      lock_list-Brackets writing t (map (λ p. p.0) sorted) w r none_held
        (AreHashable-map sorted h') in
    let (t', s) = write_pairs-WritesAll sorted (record w { held = b.held }) t r.at memory wf h' in
    let w' : World = record w {
      kvs_table = live t';
      held = b.held;
      sent = w.sent ++ written_notices t sorted;
    } in
    let done =
      unlock_list-emptied t' b.marks w' (record { at = refl; locks = r.locks; unlocks = r.unlocks })
        b.emptied in
    (
      t',
      record {
        run = unfold kvs_write in ground (arith, r.at, none_held, b.locks, s.run, done);
        well_formed = s.well_formed;
        reads = s.reads;
        subscribers = s.subscribers;
      },
    )
