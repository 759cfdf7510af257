-- ===== src/ClientProgram/Notifications/Delivery.antt =====
-- client/main.c and server/kvs.c: what the server notifies, and what the client prints of it.
use ist_key_value_store.Prelude.{
  ℕ, zero, suc, ◌<◌, ◌≡◌, ◌≢◌, ap, refl, List, [], ◌∷◌, ◌++◌, Option, some, arith, All, length,
  true, take, ◌==◌, Bool-cases, inl, inr, if◌then◌else◌,
}
use ist_key_value_store.CString.{Str, c_str}
use ist_key_value_store.Machine.{World, Sent}
use ist_key_value_store.Table.{HashTable, Subscribers, is_subscribed}
use ist_key_value_store.Table.View.{subscribers_of, IsWellFormed}
use ist_key_value_store.Kvs.{key_message_size}
use ist_key_value_store.Kvs.Notices.{notices}
use ist_key_value_store.Kvs.SubscriberList.{
  IsOnce, count_fd, count_fd-is_subscribed, is_subscribed-count_fd,
}
use ist_key_value_store.Locks.Holding.{IsReady}
use ist_key_value_store.Operations.{Pair, compare_pairs, kvs_write}
use ist_key_value_store.Operations.Sort.{qsort}
use ist_key_value_store.Operations.Sort.Laws.{qsort-All}
use ist_key_value_store.Operations.Write.{AreHashable, written_notices, kvs_write_lem}
use ist_key_value_store.Clients.Forget.{AllOnce}
use ist_key_value_store.ClientProgram.Notifications.{print_notifications}

-- The bytes that a call of `write_all` writes: the string, its NUL, and what stands behind it.
abbrev pub sent_bytes : Str → Sent → Str
sent_bytes behind s = take s.size (s.text ++ (0 ∷ behind))

-- What the reader of the pipe `fd` gets.
abbrev pub received : Str → ℕ → List Sent → List (Option Str)
received behind fd [] = []
received behind fd (s ∷ sent) =
    if s.fd == fd
    then some (sent_bytes behind s) ∷ received behind fd sent
    else received behind fd sent

-- `(key,value)` and the end of the line
abbrev pub told_line : Str → Str → Str
told_line key value = b'(' ∷ key ++ (b',' ∷ value ++ (b')' ∷ b'\n' ∷ []))

-- What a client with this pipe is to print of the pairs of a WRITE.
abbrev pub told : ℕ → HashTable → List Pair → Str
told fd t [] = []
told fd t ((key, value) ∷ pairs) =
    if is_subscribed fd (subscribers_of t key)
    then told_line key value ++ told fd t pairs
    else told fd t pairs

-- A string without a NUL that fits a message.
abbrev pub FitsKey : Str → Type 0
FitsKey s = All (λ c. c ≢ 0) s × (length s < key_message_size)

abbrev pub FitPairs : List Pair → Type 0
FitPairs = All (λ p. FitsKey p.0 × FitsKey p.1)

c_str-take :
    (n : ℕ) (s behind : Str)
    → All (λ c. c ≢ 0) s
    → length s < n
    → c_str (take n (s ++ (0 ∷ behind))) ≡ s
unfolding c_str
c_str-take zero s behind h l = absurd (omega arith)
c_str-take (suc n) [] behind h l = refl
c_str-take (suc n) (c ∷ s) behind h l = ground (arith, c_str-take n s behind h.1 (omega arith))

received-append :
    (behind : Str) (fd : ℕ) (xs ys : List Sent)
    → received behind fd (xs ++ ys) ≡ received behind fd xs ++ received behind fd ys
received-append behind fd [] ys = refl
received-append behind fd (x ∷ xs) ys = ground (arith, received-append behind fd xs ys)

-- The fields of one notice.
abbrev pub fields : Str → Str → Str → List (Option Str)
fields behind key value =
    some (take key_message_size (key ++ (0 ∷ behind)))
    ∷ some (take key_message_size (value ++ (0 ∷ behind)))
    ∷ []

received-notices_others :
    (behind : Str) (fd : ℕ) (fds : Subscribers) (key value : Str)
    → count_fd fd fds ≡ 0
    → received behind fd (notices fds key value) ≡ []
unfolding count_fd
received-notices_others behind fd [] key value h = refl
received-notices_others behind fd (s ∷ fds) key value h =
    ground (arith, received-notices_others behind fd fds key value)

received-notices :
    (behind : Str) (fd : ℕ) (fds : Subscribers) (key value : Str)
    → count_fd fd fds ≡ 1
    → received behind fd (notices fds key value) ≡ fields behind key value
unfolding count_fd
received-notices behind fd [] key value h = absurd (omega arith)
received-notices behind fd (s ∷ fds) key value h = elim (Bool-cases (s == fd)) [
  | inl here ↦ rw here (
      ap (λ t. fields behind key value ++ t)
        (received-notices_others behind fd fds key value (ground arith)))
  | inr there ↦ rw there (received-notices behind fd fds key value (ground arith))
]

-- One notice, and what is behind it.
pub print-fields :
    (behind before₁ before₂ key value : Str) (rest : List (Option Str)) (text : Str)
    → FitsKey key
    → FitsKey value
    → ((k v : Str) → print_notifications k v rest ≡ text)
    → print_notifications before₁ before₂ (fields behind key value ++ rest)
      ≡ told_line key value ++ text
unfolding print_notifications
print-fields behind before₁ before₂ key value rest text k v h =
    let n = key_message_size in
    rw
      (
        c_str-take n key behind k.0 k.1,
        c_str-take n value behind v.0 v.1,
        h (take n (key ++ (0 ∷ behind))) (take n (value ++ (0 ∷ behind))),
      )
      refl

-- How often a pipe is on a list that holds none twice.
count_fd-once :
    (fd : ℕ) (ss : Subscribers) → IsOnce ss → is_subscribed fd ss ≡ true → count_fd fd ss ≡ 1
count_fd-once fd ss once there = ground (arith, once fd, count_fd-is_subscribed fd ss)

print-written_notices :
    (fd : ℕ) (behind before₁ before₂ : Str) (t : HashTable) (pairs : List Pair)
    → AllOnce t
    → FitPairs pairs
    → print_notifications before₁ before₂ (received behind fd (written_notices t pairs))
      ≡ told fd t pairs
print-written_notices fd behind before₁ before₂ t [] once h = unfold print_notifications in refl
print-written_notices fd behind before₁ before₂ t ((key, value) ∷ pairs) once h =
    let ss = subscribers_of t key in
    let parts = received-append behind fd (notices ss key value) (written_notices t pairs) in
    elim (Bool-cases (is_subscribed fd ss)) [
      | inl there ↦
          rw
            (
              there,
              parts,
              received-notices behind fd ss key value (count_fd-once fd ss (once key) there),
            )
            (print-fields behind before₁ before₂ key value
              (received behind fd (written_notices t pairs)) (told fd t pairs) h.0.0 h.0.1
              (λ k v. print-written_notices fd behind k v t pairs once h.1))
      | inr absent ↦
          rw
            (
              absent,
              parts,
              received-notices_others behind fd ss key value (is_subscribed-count_fd fd ss absent),
            )
            (print-written_notices fd behind before₁ before₂ t pairs once h.1)
    ]

-- What the server notifies of a WRITE is what the client prints: `kvs_write` of pairs whose keys have
-- buckets, on a well-formed table where no list holds a pipe twice, with locks and memory that do not fail,
-- returns 0; and the client, of what this command has written to its pipe, prints one line `(key,value)`
-- for each pair whose key the pipe subscribes, in the sorted order of the command, and nothing else. Keys
-- and values have 40 bytes at most and no NUL; what the server sends from behind their ends does not
-- matter. No other thread writes to the pipe meanwhile.
pub kvs_write-told :
    (w : World) (t : HashTable) (pairs : List Pair) (fd : ℕ) (behind key value : Str)
    → IsReady w t
    → w.held ≡ []
    → w.allocs ≡ []
    → w.sent ≡ []
    → IsWellFormed t
    → AllOnce t
    → AreHashable pairs
    → FitPairs pairs
    → (w' : World) × (kvs_write pairs w ≡ some (0, w'))
      × (print_notifications key value (received behind fd w'.sent)
          ≡ told fd t (qsort compare_pairs pairs))
kvs_write-told w t pairs fd behind key value r none_held memory quiet wf once ok fit =
    let sorted = qsort compare_pairs pairs in
    let (t', h) = kvs_write_lem w t pairs r none_held memory wf ok in
    let printed =
      print-written_notices fd behind key value t sorted once
        (qsort-All compare_pairs (λ p. FitsKey p.0 × FitsKey p.1) pairs fit) in
    (_, h.run, rw quiet printed)
