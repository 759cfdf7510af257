-- ===== src/Requests/Overflow.antt =====
-- client/api.c and server/main.c: a connect message with a path that leaves no room for its NUL.
use ist_key_value_store.Prelude.{
  Option, Bool, ◌∙◌, ◌==◌, if◌then◌else◌, leb, length-take, none, false, Option-cases, inl, inr, ℕ,
  zero, suc, ◌-◌, ◌≤◌, ◌≡◌, ◌≢◌, ap, refl, [], ◌∷◌, ◌++◌, append_assoc, append-nil, some, true,
  arith, All, length, length-append, length-replicate, take, drop, replicate, take-eq_of_le,
}
use ist_key_value_store.CString.{Str}
use ist_key_value_store.Table.{first_byte}
use ist_key_value_store.Connections.{ClientInfo}
use ist_key_value_store.Clients.{op_code_connect}
use ist_key_value_store.Requests.{
  has_nul, paths_at, max_pipe_path_length, fill_with_nulls, connect_message, path_at,
  read_connect_message,
}
use ist_key_value_store.Requests.Messages.{take-field, drop-field}

length-fill_with_nulls_any : (s : Str) (size : ℕ) → length (fill_with_nulls s size) ≡ size
unfolding fill_with_nulls
length-fill_with_nulls_any s size = omega (
  arith,
  length-append (take size s) (replicate (size - length s) 0),
  length-replicate {A = ℕ} (size - length s) 0,
  length-take size s,
)

has_nul-take : (n : ℕ) (s : Str) → All (λ c. c ≢ 0) s → has_nul (take n s) ≡ false
unfolding has_nul
has_nul-take zero s h = refl
has_nul-take (suc n) [] h = refl
has_nul-take (suc n) (c ∷ s) h = ground (arith, h.0, has_nul-take n s h.1)

-- A path that fills its field has no NUL there.
has_nul-full :
    (s : Str) (size : ℕ)
    → All (λ c. c ≢ 0) s
    → size ≤ length s
    → has_nul (fill_with_nulls s size) ≡ false
unfolding fill_with_nulls
has_nul-full s size plain long =
    let nothing : size - length s ≡ 0 = omega (arith, long) in
    rw (nothing, append-nil (take size s)) (has_nul-take size s plain)

paths_at-notif : (buffer : Str) → path_at 81 buffer ≡ none → paths_at buffer ≡ none
unfolding paths_at
paths_at-notif buffer e = elim (Option-cases (path_at 1 buffer)) [
  | inl missing ↦ ground (arith, missing)
  | inr (req, found) ↦ elim (Option-cases (path_at 41 buffer)) [
    | inl missing ↦ ground (arith, found, missing)
    | inr (resp, found') ↦ ground (arith, found, found', e)
  ]
]

leb_of_le : (m n : ℕ) → m ≤ n → leb m n ≡ true
leb_of_le m n h = ground arith

refused :
    (enough : Bool) (buffer rest : Str)
    → enough ≡ true
    → first_byte buffer ≡ op_code_connect
    → paths_at buffer ≡ none
    → let refuses : Option (Option ClientInfo × Str) = some (none, rest) in
      let reads : Option (Option ClientInfo × Str) = elim (paths_at buffer) [
        | none ↦ none
        | some c ↦ some (some c, rest)
      ] in
      (if enough
        then (if first_byte buffer == op_code_connect then reads else refuses)
        else refuses)
      ≡ none
refused enough buffer rest is opcode over = rw (is, opcode, over) refl

overflowing :
    (message rest : Str)
    → length message ≡ 121
    → first_byte message ≡ op_code_connect
    → paths_at message ≡ none
    → read_connect_message (message ++ rest) ≡ none
unfolding read_connect_message
overflowing message rest l opcode over =
    let buffer = take-field 121 message rest l in
    refused (leb 121 (length (message ++ rest))) (take 121 (message ++ rest))
      (drop 121 (message ++ rest))
      (leb_of_le 121 (length (message ++ rest)) (omega (arith, l, length-append message rest)))
      (ap first_byte buffer ∙ opcode) (ap paths_at buffer ∙ over)

-- The message of a client whose path for notifications fills its field is undefined behaviour.
pub read_connect_message-overflows :
    (c : ClientInfo) (rest : Str)
    → All (λ c. c ≢ 0) c.notif_fifo
    → max_pipe_path_length ≤ length c.notif_fifo
    → read_connect_message (connect_message c ++ rest) ≡ none
unfolding connect_message first_byte
read_connect_message-overflows c rest plain long =
    let n = max_pipe_path_length in
    let req = fill_with_nulls c.req_fifo n in
    let resp = fill_with_nulls c.resp_fifo n in
    let notif = fill_with_nulls c.notif_fifo n in
    let message = connect_message c in
    let l₁ = length-fill_with_nulls_any c.req_fifo n in
    let l₂ = length-fill_with_nulls_any c.resp_fifo n in
    let l₃ = length-fill_with_nulls_any c.notif_fifo n in
    let l : length message ≡ 121 =
      omega (arith, l₁, l₂, l₃, length-append req (resp ++ notif), length-append resp notif) in
    let dropped : drop 81 message ≡ notif =
      rw (← append_assoc req resp notif) (
        drop-field 81 (b'1' ∷ req ++ resp) notif (omega (arith, l₁, l₂, length-append req resp))) in
    let none_there : path_at 81 message ≡ none =
      unfold path_at in
      rw
        (dropped, take-eq_of_le n notif (omega (arith, l₃)), has_nul-full c.notif_fifo n plain long)
        refl in
    overflowing (connect_message c) rest l refl (paths_at-notif message none_there)
