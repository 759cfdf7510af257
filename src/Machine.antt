-- ===== src/Machine.antt =====
-- What a server thread works on, and the monad of its operations. `none` is undefined behaviour:
-- an access through NULL or a freed pointer, an index out of bounds, an unchecked failed `strdup`.
pub mod Rules
use ist_key_value_store.Prelude.{
  ℕ, ◌<◌, List, [], ◌∷◌, ◌++◌, Option, none, some, Bool, true, false, ℤ, pos, negsuc, ltb, get_or,
  set, length, if◌then◌else◌,
}
use ist_key_value_store.CString.{Str}
use ist_key_value_store.Table.{HashTable, Bucket}

-- `kvs_table`: NULL, a table, or a table that `free_table` has freed.
pub data TablePointer : Type 0 where
  null : TablePointer
  live : HashTable → TablePointer
  freed : TablePointer

pub data Mode : Type 0 where
  reading writing : Mode

pub record Held : Type 0 where
  pub index : ℕ
  pub mode : Mode

-- One call `write_all(fd, text, size)`; `text` is the C string that the pointer reads as.
pub record Sent : Type 0 where
  pub fd : ℕ
  pub text : Str
  pub size : ℕ

-- `struct Client`. A file descriptor is an `int`, here as the 32 bits of its representation.
pub record Client : Type 0 where
  pub fd_req : ℕ
  pub fd_resp : ℕ
  pub fd_notif : ℕ
  pub subscriptions : List Str

-- What the operations on clients work on.
pub record Sessions : Type 0 where
  -- the clients that were allocated, by address; `none` once freed
  pub heap : List (Option Client)
  -- `connectedClients`: the addresses, or NULL
  pub connected_clients : List (Option ℕ)
  -- what `open` returns for a path
  pub opens : Str → ℕ
  -- whether `write_all` to a descriptor and `close` of it fail
  pub write_error : ℕ → Bool
  pub close_error : ℕ → Bool
  -- the bytes that were written to response pipes, and the descriptors that were closed, in order
  pub responses : List (ℕ × ℕ)
  pub closed : List ℕ

pub record World : Type 0 where
  pub kvs_table : TablePointer
  -- the bucket locks that this thread has taken, the latest first
  pub held : List Held
  -- whether `pthread_rwlock_rdlock` or `wrlock`, `unlock` and `init` of a bucket's lock fail
  pub lock_error : ℕ → Bool
  pub unlock_error : ℕ → Bool
  pub init_error : ℕ → Bool
  -- whether the next allocations succeed; past the end all do
  pub allocs : List Bool
  -- the writes to notification pipes, in order
  pub sent : List Sent
  -- what was written to the output file
  pub out : Str
  pub sessions : Sessions

abbrev pub M : Type 0 → Type 0
M A = World → Option (A × World)

abbrev pub pure : {A : Type 0} → A → M A
pure a w = some (a, w)

abbrev pub fault : {A : Type 0} → M A
fault w = none

infixl 5 ◌>>=◌ ◌>>◌
abbrev pub ◌>>=◌ : {A B : Type 0} → M A → (A → M B) → M B
◌>>=◌ m f w = elim (m w) [ none ↦ none | some (a, w') ↦ f a w' ]

abbrev pub ◌>>◌ : {B : Type 0} → M (Unit {0}) → M B → M B
m >> k = m >>= λ _. k

abbrev pub gets : {A : Type 0} → (World → A) → M A
gets f w = some (f w, w)

abbrev pub modify : (World → World) → M (Unit {0})
modify f w = some (tt, f w)

next_alloc : List Bool → Bool
next_alloc [] = true
next_alloc (b ∷ bs) = b

later_allocs : List Bool → List Bool
later_allocs [] = []
later_allocs (b ∷ bs) = bs

-- Whether `malloc` or `strdup` returned memory.
unfoldable pub malloc : M Bool
unfolding next_alloc later_allocs
malloc w = some (next_alloc w.allocs, record w { allocs = later_allocs w.allocs })

abbrev pub deref : TablePointer → Option HashTable
deref null = none
deref (live t) = some t
deref freed = none

-- A read through `kvs_table`.
unfoldable pub get_table : M HashTable
get_table w = elim (deref w.kvs_table) [ none ↦ none | some t ↦ some (t, w) ]

abbrev bucket_or_fault : HashTable → ℤ → Option Bucket
bucket_or_fault t (pos i) = if ltb i (length t.table) then some (get_or t.table i []) else none
bucket_or_fault t (negsuc i) = none

-- `ht->table[index]`
unfoldable pub bucket_at : ℤ → M Bucket
unfolding get_table
bucket_at index = do
  t ← get_table
  elim (bucket_or_fault t index) [ none ↦ fault | some b ↦ pure b ]

abbrev put_bucket : HashTable → ℤ → Bucket → Option HashTable
put_bucket t (pos i) b =
    if ltb i (length t.table) then some (record { table = set t.table i b }) else none
put_bucket t (negsuc i) b = none

-- The list at `ht->table[index]` is now `bucket`.
unfoldable pub set_bucket : ℤ → Bucket → M (Unit {0})
unfolding get_table
set_bucket index bucket = do
  t ← get_table
  elim (put_bucket t index bucket) [
    | none ↦ fault
    | some t' ↦ modify (λ w. record w { kvs_table = live t' })
  ]

unfoldable pub send : ℕ → Str → ℕ → M (Unit {0})
send fd text size =
    modify (λ w. record w { sent = w.sent ++ record { fd = fd; text = text; size = size } ∷ [] })

-- `write(fdOut, text, strlen(text))`
unfoldable pub write_out : Str → M (Unit {0})
write_out text = modify (λ w. record w { out = w.out ++ text })
