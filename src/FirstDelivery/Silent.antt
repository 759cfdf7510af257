-- ===== src/FirstDelivery/Silent.antt =====
-- Two operations that do the same but for the notifications that they send.
use ist_key_value_store.Prelude.{
  ℕ, ◌+◌, ◌≡◌, refl, List, [], ◌∷◌, Option, none, some, Bool, true, false, ℤ, pos, negsuc, arith,
  Option-cases, Bool-cases, inl, inr, if◌then◌else◌, ltb, length, get_or, set, not, ◌==◌,
}
use ist_key_value_store.CString.{Str}
use ist_key_value_store.Table.{Bucket, Subscribers, hash}
use ist_key_value_store.Kvs.{notify_subscribers}
use ist_key_value_store.Locks.{lock_bucket, unlock_bucket, lock_list, unlock_from, unlock_list}
use ist_key_value_store.Machine.{
  M, World, Sent, Mode, pure, fault, ◌>>=◌, gets, malloc, get_table, bucket_at, set_bucket,
  write_out, send,
}

-- What is left of a result without what was sent.
abbrev pub unsent : {A : Type 0} → Option (A × World) → Option (A × World)
unsent none = none
unsent (some (a, w)) = some (a, record w { sent = [] })

-- From states that differ in what was sent, both operations are undefined behaviour, or both return the
-- same value in states that differ in what was sent.
abbrev pub Same : {A : Type 0} → M A → M A → Type 0
Same m₁ m₂ = (w : World) (s : List Sent) → unsent (m₁ w) ≡ unsent (m₂ (record w { sent = s }))

pub bind-Same :
    {A B : Type 0} (m₁ m₂ : M A) (f₁ f₂ : A → M B)
    → Same m₁ m₂
    → ((a : A) → Same (f₁ a) (f₂ a))
    → Same (m₁ >>= f₁) (m₂ >>= f₂)
bind-Same m₁ m₂ f₁ f₂ h k w s = elim (Option-cases (m₁ w)) [
  | inl fails ↦ elim (Option-cases (m₂ (record w { sent = s }))) [
    | inl fails' ↦ ground arith
    | inr ((b, w₂), done') ↦ ground (arith, h w s)
  ]
  | inr ((a, w₁), done) ↦ elim (Option-cases (m₂ (record w { sent = s }))) [
    | inl fails' ↦ ground (arith, h w s)
    | inr ((b, w₂), done') ↦ ground (arith, h w s, k a w₁ w₂.sent)
  ]
]

pub pure-Same : {A : Type 0} (a : A) → Same (pure a) (pure a)
pure-Same a w s = refl

pub if-Same :
    {A : Type 0} (b : Bool) (m₁ m₂ n₁ n₂ : M A)
    → Same m₁ m₂
    → Same n₁ n₂
    → Same (if b then m₁ else n₁) (if b then m₂ else n₂)
if-Same true m₁ m₂ n₁ n₂ h k = h
if-Same false m₁ m₂ n₁ n₂ h k = k

pub table-Same : Same (gets (λ w. w.kvs_table)) (gets (λ w. w.kvs_table))
table-Same w s = refl

pub malloc-Same : Same malloc malloc
unfolding malloc
malloc-Same w s = refl

pub get_table-Same : Same get_table get_table
unfolding get_table
get_table-Same w s = ground arith

pub bucket_at-Same : (index : ℤ) → Same (bucket_at index) (bucket_at index)
unfolding bucket_at get_table
bucket_at-Same index w s = ground arith

pub set_bucket-Same :
    (index : ℤ) (bucket : Bucket) → Same (set_bucket index bucket) (set_bucket index bucket)
unfolding set_bucket get_table
set_bucket-Same index bucket w s = ground arith

pub write_out-Same : (text : Str) → Same (write_out text) (write_out text)
unfolding write_out
write_out-Same text w s = refl

pub notify_subscribers-Same :
    (fds : Subscribers) (key value : Str) → Same (pure tt) (notify_subscribers fds key value)
unfolding notify_subscribers send
notify_subscribers-Same [] key value w s = refl
notify_subscribers-Same (fd ∷ fds) key value w s = notify_subscribers-Same fds key value w _

pub lock_bucket-Same : (mode : Mode) (i : ℕ) → Same (lock_bucket mode i) (lock_bucket mode i)
unfolding lock_bucket get_table
lock_bucket-Same mode i w s = ground arith

pub unlock_bucket-Same : (i : ℕ) → Same (unlock_bucket i) (unlock_bucket i)
unfolding unlock_bucket get_table
unlock_bucket-Same i w s = ground arith

-- A round of `lock_list`, once the index of the key is known.
lock_at :
    (mode : Mode) (loop : List ℕ → M (ℕ × List ℕ)) (marks : List ℕ) (index : ℤ)
    → ((marks : List ℕ) → Same (loop marks) (loop marks))
    → let round : M (ℕ × List ℕ) = elim index [
      | negsuc _ ↦ fault
      | pos i ↦ if not (ltb i (length marks)) then fault else elim (get_or marks i 0 == 0) [
        | false ↦ loop marks
        | true ↦ do
          failed ← lock_bucket mode i
          if failed then pure (1, marks) else loop (set marks i 1)
      ]
    ] in
      Same round round
lock_at mode loop marks (negsuc _) ih w s = refl
lock_at mode loop marks (pos i) ih w s = elim (Bool-cases (ltb i (length marks))) [
  | inr out_of_bounds ↦ ground arith
  | inl within ↦ elim (Bool-cases (get_or marks i 0 == 0)) [
    | inr locked ↦ rw (within, locked) (ih marks w s)
    | inl free ↦
        rw (within, free)
          (bind-Same (lock_bucket mode i) (lock_bucket mode i) _ _ (lock_bucket-Same mode i)
            (λ failed.
              if-Same failed (pure (1, marks)) (pure (1, marks)) (loop (set marks i 1))
                (loop (set marks i 1)) (pure-Same (1, marks)) (ih (set marks i 1)))
            w s)
  ]
]

pub lock_list-Same :
    (mode : Mode) (keys : List Str) (marks : List ℕ)
    → Same (lock_list mode keys marks) (lock_list mode keys marks)
unfolding lock_list
lock_list-Same mode [] marks w s = refl
lock_list-Same mode (key ∷ keys) marks w s =
    lock_at mode (lock_list mode keys) marks (hash key) (lock_list-Same mode keys) w s

unlock_from-Same : (i : ℕ) (marks : List ℕ) → Same (unlock_from i marks) (unlock_from i marks)
unfolding unlock_from
unlock_from-Same i [] w s = refl
unlock_from-Same i (mark ∷ marks) w s = elim (Bool-cases (mark == 1)) [
  | inr free ↦ ground (arith, unlock_from-Same (i + 1) marks w s)
  | inl locked ↦
      rw (unsent, locked)
        (bind-Same (unlock_bucket i) (unlock_bucket i) _ _ (unlock_bucket-Same i)
          (λ failed.
            if-Same failed (pure 1) (pure 1) (unlock_from (i + 1) marks) (unlock_from (i + 1) marks)
              (pure-Same 1) (unlock_from-Same (i + 1) marks))
          w s)
]

pub unlock_list-Same : (marks : List ℕ) → Same (unlock_list marks) (unlock_list marks)
unfolding unlock_list
unlock_list-Same marks = unlock_from-Same 0 marks
