-- ===== src/Operations/Delete.antt =====
-- server/operations.c: `kvs_delete`.
use ist_key_value_store.Prelude.{
  ◌≡◌, refl, ap, ◌∙◌, List, [], ◌∷◌, ◌++◌, append_assoc, append-nil, some, Option-cases, inl, inr,
  Bool, true, false, arith, All, if◌then◌else◌,
}
use mathlib.Core.Path.{fun_ext}
use ist_key_value_store.CString.{Str}
use ist_key_value_store.Table.{HashTable}
use ist_key_value_store.Table.Hash.{IsHashable}
use ist_key_value_store.Table.View.{view, subscribers_of, IsWellFormed}
use ist_key_value_store.Machine.{World, live, writing}
use ist_key_value_store.Kvs.{delete_text}
use ist_key_value_store.Kvs.Notices.{notices}
use ist_key_value_store.Kvs.Pairs.{delete_pair-Deletes}
use ist_key_value_store.Locks.Holding.{IsReady}
use ist_key_value_store.Locks.Release.{lock_list-Brackets, unlock_list-emptied}
use ist_key_value_store.Operations.{compare_keys, delete_pairs, kvs_delete, entry, kvsmissing}
use ist_key_value_store.Operations.Text.{IsShort, snprintf-entry}
use ist_key_value_store.Operations.Missing.{
  without, unsubscribed, remaining, remaining_subscribers, missing_keys, deletion_notices, opened,
  any_missing, missing_text, kvsmissing-IsShort, opened_cons, closed,
}
use ist_key_value_store.Operations.Sort.{qsort}
use ist_key_value_store.Operations.Sort.Laws.{qsort-All}

-- What the deletion of `keys` in their order leaves of `t`, sends and prints.
pub record DeletesAll (w : World) (t : HashTable) (keys : List Str) (aux : Bool) (t' : HashTable)
    : Type 0 where
  pub run :
      delete_pairs keys aux w
      ≡ some (
        any_missing aux (missing_keys keys (view t)),
        record w {
          kvs_table = live t';
          sent = w.sent ++ deletion_notices keys (subscribers_of t);
          out = w.out ++ opened aux (missing_keys keys (view t));
        },
      )
  pub well_formed : IsWellFormed t'
  pub reads : view t' ≡ remaining keys (view t)
  pub subscribers : subscribers_of t' ≡ remaining_subscribers keys (subscribers_of t)

pub delete_pairs-DeletesAll :
    (keys : List Str) (aux : Bool) (w : World) (t : HashTable)
    → w.kvs_table ≡ live t
    → w.allocs ≡ []
    → IsWellFormed t
    → All IsHashable keys
    → All IsShort keys
    → (t' : HashTable) × DeletesAll w t keys aux t'
unfolding delete_pairs
delete_pairs-DeletesAll [] true w t at memory wf h s = (
  t,
  record {
    run = ground (arith, at, append-nil w.sent, append-nil w.out);
    well_formed = wf;
    reads = refl;
    subscribers = refl;
  },
)
delete_pairs-DeletesAll [] false w t at memory wf h s = (
  t,
  record {
    run = ground (arith, at, append-nil w.sent, append-nil w.out);
    well_formed = wf;
    reads = refl;
    subscribers = refl;
  },
)
delete_pairs-DeletesAll (key ∷ keys) aux w t at memory wf h s =
    let (t₁, first) = delete_pair-Deletes w t key at memory wf h.0 in
    let view₁ : view t₁ ≡ without key (view t) = fun_ext first.reads in
    let subs₁ : subscribers_of t₁ ≡ unsubscribed key (subscribers_of t) =
      fun_ext first.subscribers in
    let sent₁ = w.sent ++ notices (subscribers_of t key) key delete_text in
    let sends =
      append_assoc w.sent (notices (subscribers_of t key) key delete_text)
        (deletion_notices keys (unsubscribed key (subscribers_of t))) in
    elim (Option-cases (view t key)) [
      | inr (value, there) ↦
          let w₁ : World = record w { kvs_table = live t₁; sent = sent₁ } in
          let (t₂, rest) =
            delete_pairs-DeletesAll keys aux w₁ t₁ refl memory first.well_formed h.1 s.1 in
          (
            t₂,
            record {
              run = ground (
                arith,
                first.run,
                there,
                rest.run,
                sends,
                ap (missing_keys keys) view₁,
                ap (deletion_notices keys) subs₁,
              );
              well_formed = rest.well_formed;
              reads = rest.reads ∙ ap (remaining keys) view₁;
              subscribers = rest.subscribers ∙ ap (remaining_subscribers keys) subs₁;
            },
          )
      | inl absent ↦
          let w₁ : World = record w {
            kvs_table = live t₁;
            sent = sent₁;
            out = (if aux then w.out else w.out ++ b'[' ∷ []) ++ entry key kvsmissing;
          } in
          let (t₂, rest) =
            delete_pairs-DeletesAll keys true w₁ t₁ refl memory first.well_formed h.1 s.1 in
          (
            t₂,
            record {
              run = ground (
                arith,
                first.run,
                absent,
                rest.run,
                sends,
                ap (missing_keys keys) view₁,
                ap (deletion_notices keys) subs₁,
                snprintf-entry key kvsmissing s.0 kvsmissing-IsShort,
                opened_cons aux key (missing_keys keys (without key (view t))) w.out,
              );
              well_formed = rest.well_formed;
              reads = rest.reads ∙ ap (remaining keys) view₁;
              subscribers = rest.subscribers ∙ ap (remaining_subscribers keys) subs₁;
            },
          )
    ]

-- What `kvs_delete` does.
pub record DeletesSorted (w : World) (t : HashTable) (keys : List Str) (t' : HashTable)
    : Type 0 where
  pub run :
      let sorted = qsort compare_keys keys in
      kvs_delete keys w
      ≡ some (
        0,
        record w {
          kvs_table = live t';
          sent = w.sent ++ deletion_notices sorted (subscribers_of t);
          out = w.out ++ missing_text (missing_keys sorted (view t));
        },
      )
  pub well_formed : IsWellFormed t'
  pub reads : view t' ≡ remaining (qsort compare_keys keys) (view t)
  pub subscribers :
      subscribers_of t' ≡ remaining_subscribers (qsort compare_keys keys) (subscribers_of t)

-- `kvs_delete` of keys that have buckets and fit their arrays, on a well-formed table, with locks and
-- memory that do not fail and no bucket lock held, returns 0 and holds no bucket lock afterwards; the
-- table is well formed; the keys read as missing and have no subscribers, and every other key is as
-- before; the subscribers of each deleted key were sent `DELETE`; and what is printed is nothing if all
-- keys were there, and else the missing ones with KVSMISSING, in brackets and in sorted order.
pub kvs_delete_lem :
    (w : World) (t : HashTable) (keys : List Str)
    → IsReady w t
    → w.held ≡ []
    → w.allocs ≡ []
    → IsWellFormed t
    → All IsHashable keys
    → All IsShort keys
    → (t' : HashTable) × DeletesSorted w t keys t'
kvs_delete_lem w t keys r none_held memory wf h s =
    let sorted = qsort compare_keys keys in
    let h' = qsort-All compare_keys IsHashable keys h in
    let s' = qsort-All compare_keys IsShort keys s in
    let b = lock_list-Brackets writing t sorted w r none_held h' in
    let (t', d) =
      delete_pairs-DeletesAll sorted false (record w { held = b.held }) t r.at memory wf h' s' in
    let ms = missing_keys sorted (view t) in
    let out₁ = w.out ++ opened false ms in
    let w₁ : World = record w {
      kvs_table = live t';
      held = b.held;
      sent = w.sent ++ deletion_notices sorted (subscribers_of t);
      out = if any_missing false ms then out₁ ++ b']' ∷ b'\n' ∷ [] else out₁;
    } in
    let done =
      unlock_list-emptied t' b.marks w₁ (record { at = refl; locks = r.locks; unlocks = r.unlocks })
        b.emptied in
    (
      t',
      record {
        run =
            unfold kvs_delete in
            ground (arith, r.at, none_held, b.locks, d.run, done, closed w.out ms);
        well_formed = d.well_formed;
        reads = d.reads;
        subscribers = d.subscribers;
      },
    )
