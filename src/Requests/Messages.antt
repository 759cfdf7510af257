-- ===== src/Requests/Messages.antt =====
-- client/api.c and server/main.c: the server reads what the client writes.
use ist_key_value_store.Prelude.{
  ℕ, zero, suc, ◌-◌, ◌≤◌, ◌<◌, ◌≡◌, ◌≢◌, ap, refl, [], ◌∷◌, ◌++◌, append_assoc, append-nil, some,
  true, arith, All, length, length-append, length-replicate, take, drop, replicate, take-eq_of_le,
}
use ist_key_value_store.CString.{Str, c_str}
use ist_key_value_store.Table.{first_byte}
use ist_key_value_store.Kvs.{key_message_size}
use ist_key_value_store.Connections.{ClientInfo}
use ist_key_value_store.Requests.{
  the_key, has_nul, paths_at, max_pipe_path_length, fill_with_nulls, connect_message, key_message,
  path_at, read_connect_message, read_key,
}

-- A string without a NUL that fits an array of `size` bytes.
abbrev pub FitsField : ℕ → Str → Type 0
FitsField size s = All (λ c. c ≢ 0) s × (length s ≤ size)

-- A path without a NUL that leaves room for one.
abbrev pub FitsPath : Str → Type 0
FitsPath s = All (λ c. c ≢ 0) s × (length s < max_pipe_path_length)

c_str-nulls : (s : Str) (n : ℕ) → All (λ c. c ≢ 0) s → c_str (s ++ replicate n 0) ≡ s
unfolding c_str
c_str-nulls [] zero h = refl
c_str-nulls [] (suc n) h = refl
c_str-nulls (c ∷ s) n h = ground (arith, c_str-nulls s n h.1)

fill_with_nulls-fits :
    (s : Str) (size : ℕ)
    → length s ≤ size
    → fill_with_nulls s size ≡ s ++ replicate (size - length s) 0
unfolding fill_with_nulls
fill_with_nulls-fits s size l =
    ap (λ t. t ++ replicate (size - length s) 0) (take-eq_of_le size s l)

length-fill_with_nulls :
    (s : Str) (size : ℕ) → length s ≤ size → length (fill_with_nulls s size) ≡ size
length-fill_with_nulls s size l = rw (fill_with_nulls-fits s size l) (
    omega (
      arith,
      length-append s (replicate (size - length s) 0),
      length-replicate {A = ℕ} (size - length s) 0,
    ))

c_str-fill_with_nulls : (s : Str) (size : ℕ) → FitsField size s → c_str (fill_with_nulls s size) ≡ s
c_str-fill_with_nulls s size f =
    rw (fill_with_nulls-fits s size f.1) (c_str-nulls s (size - length s) f.0)

-- A field at the front of what follows.
pub take-field : (n : ℕ) (xs ys : Str) → length xs ≡ n → take n (xs ++ ys) ≡ xs
take-field zero [] ys e = ground arith
take-field zero (x ∷ xs) ys e = absurd (omega arith)
take-field (suc n) [] ys e = absurd (omega arith)
take-field (suc n) (x ∷ xs) ys e = ap (λ t. x ∷ t) (take-field n xs ys (omega arith))

pub drop-field : (n : ℕ) (xs ys : Str) → length xs ≡ n → drop n (xs ++ ys) ≡ ys
drop-field zero [] ys e = refl
drop-field zero (x ∷ xs) ys e = absurd (omega arith)
drop-field (suc n) [] ys e = absurd (omega arith)
drop-field (suc n) (x ∷ xs) ys e = drop-field n xs ys (omega arith)

-- A NUL is found behind the string.
has_nul-nulls : (s : Str) (n : ℕ) → 0 < n → has_nul (s ++ replicate n 0) ≡ true
unfolding has_nul
has_nul-nulls [] zero h = absurd (omega arith)
has_nul-nulls [] (suc n) h = refl
has_nul-nulls (c ∷ s) n h = ground (arith, has_nul-nulls s n h)

has_nul-fill_with_nulls :
    (s : Str) (size : ℕ) → length s < size → has_nul (fill_with_nulls s size) ≡ true
has_nul-fill_with_nulls s size l =
    rw (fill_with_nulls-fits s size (omega arith)) (has_nul-nulls s (size - length s) (omega arith))

-- The server reads a key that the client sends behind a subscribe or an unsubscribe code: for a key of 40
-- bytes at most without a NUL, `read_key` delivers the key and leaves what stands behind the message.
pub read_key-key_message :
    (opcode : ℕ) (key rest : Str)
    → All (λ c. c ≢ 0) key
    → length key < key_message_size
    → read_key (drop 1 (key_message opcode key) ++ rest) ≡ (the_key key, rest)
unfolding read_key key_message
read_key-key_message opcode key rest plain short =
    let field = fill_with_nulls key key_message_size in
    let l = length-fill_with_nulls key key_message_size (omega arith) in
    ground (
      arith,
      l,
      length-append field rest,
      take-field key_message_size field rest l,
      drop-field key_message_size field rest l,
      c_str-fill_with_nulls key key_message_size (plain, omega arith),
      has_nul-fill_with_nulls key key_message_size short,
    )

path_at-field :
    (i : ℕ) (before behind path : Str)
    → length before ≡ i
    → FitsPath path
    → path_at i (before ++ (fill_with_nulls path max_pipe_path_length ++ behind)) ≡ some path
unfolding path_at
path_at-field i before behind path b f =
    let n = max_pipe_path_length in
    let field = fill_with_nulls path n in
    rw
      (
        drop-field i before (field ++ behind) b,
        take-field n field behind (length-fill_with_nulls path n (omega (arith, f.1))),
        has_nul-fill_with_nulls path n f.1,
        c_str-fill_with_nulls path n (f.0, omega (arith, f.1)),
      )
      refl

-- A client whose paths fit their fields, each with its NUL.
pub record FitsMessage (c : ClientInfo) : Type 0 where
  pub resp : FitsPath c.resp_fifo
  pub req : FitsPath c.req_fifo
  pub notif : FitsPath c.notif_fifo

-- The server reads the message with which a client connects: for paths of 39 bytes at most without a NUL,
-- `read_connect_message` delivers the three paths and leaves what stands behind the message.
pub read_connect_message-connect_message :
    (c : ClientInfo) (rest : Str)
    → FitsMessage c
    → read_connect_message (connect_message c ++ rest) ≡ some (some c, rest)
unfolding read_connect_message connect_message first_byte paths_at
read_connect_message-connect_message c rest f =
    let n = max_pipe_path_length in
    let req = fill_with_nulls c.req_fifo n in
    let resp = fill_with_nulls c.resp_fifo n in
    let notif = fill_with_nulls c.notif_fifo n in
    let message = connect_message c in
    let l₁ = length-fill_with_nulls c.req_fifo n (omega (arith, f.req.1)) in
    let l₂ = length-fill_with_nulls c.resp_fifo n (omega (arith, f.resp.1)) in
    let l₃ = length-fill_with_nulls c.notif_fifo n (omega (arith, f.notif.1)) in
    let l : length message ≡ 121 =
      omega (arith, l₁, l₂, l₃, length-append req (resp ++ notif), length-append resp notif) in
    ground (
      arith,
      l,
      length-append message rest,
      take-field 121 message rest l,
      drop-field 121 message rest l,
      path_at-field 1 (b'1' ∷ []) (resp ++ notif) c.req_fifo refl f.req,
      path_at-field 41 (b'1' ∷ req) notif c.resp_fifo (omega (arith, l₁)) f.resp,
      path_at-field 81 (b'1' ∷ req ++ resp) [] c.notif_fifo
          (omega (arith, l₁, l₂, length-append req resp)) f.notif,
      append_assoc req resp (notif ++ []),
      append-nil notif,
    )
