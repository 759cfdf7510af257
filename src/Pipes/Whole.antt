-- ===== src/Pipes/Whole.antt =====
-- common/io.c: what arrives is the whole message or an error.
use ist_key_value_store.Prelude.{
  ℕ, zero, suc, ◌-◌, ◌≤◌, ◌≡◌, ap, refl, List, [], ◌∷◌, ◌++◌, append_assoc, Option, none, some,
  Bool, true, false, ℤ, pos, arith, All, length, length-take, take, drop, length-append,
  Option-cases, inl, inr,
}
use ist_key_value_store.CString.{Str}
use ist_key_value_store.Pipes.{
  Read, bytes, end_of_file, Result, read_loop, read_all, Write, wrote, write_all,
}

-- The rest of a message once `bs` has arrived.
abbrev pub IsPrefix : Str → Str → Type 0
IsPrefix xs ys = (rest : Str) × (xs ++ rest ≡ ys)

take-drop : (n : ℕ) (xs : Str) → take n xs ++ drop n xs ≡ xs
take-drop zero xs = refl
take-drop (suc n) [] = refl
take-drop (suc n) (x ∷ xs) = ap (λ l. x ∷ l) (take-drop n xs)

-- Whatever the single calls of `write` return, what `write_all` has written when it returns is a prefix of
-- the message, and if it returns 1 it is the whole message.
pub write_all-IsPrefix :
    (results : List Write) (message : Str) (value : ℤ) (out : Str)
    → write_all message results ≡ some (value, out)
    → IsPrefix out message
unfolding write_all
write_all-IsPrefix results [] value out e = ([], ground arith)
write_all-IsPrefix [] (b ∷ bs) value out e = absurd cc
write_all-IsPrefix (Write.failed ∷ results) (b ∷ bs) value out e = (b ∷ bs, ground arith)
write_all-IsPrefix (Write.interrupted ∷ results) (b ∷ bs) value out e =
    write_all-IsPrefix results (b ∷ bs) value out e
write_all-IsPrefix (wrote n ∷ results) (b ∷ bs) value out e =
    elim (Option-cases (write_all (drop n (b ∷ bs)) results)) [
      | inl waits ↦ absurd (ground arith)
      | inr (r, returns) ↦
          let (rest, whole) = write_all-IsPrefix results (drop n (b ∷ bs)) r.0 r.1 returns in
          (rest, ground (arith, take-drop n (b ∷ bs), append_assoc (take n (b ∷ bs)) r.1 rest))
    ]

-- A result of `write` that is no error and makes progress, or an interruption.
abbrev pub IsFine : Write → Type 0
IsFine (wrote n) = 1 ≤ n
IsFine Write.interrupted = Unit
IsFine Write.failed = ⊥

-- How many calls wrote something.
abbrev pub writes : List Write → ℕ
writes [] = 0
writes (wrote n ∷ results) = suc (writes results)
writes (_ ∷ results) = writes results

length-drop-suc : (n : ℕ) (b : ℕ) (bs : Str) → 1 ≤ n → length (drop n (b ∷ bs)) ≤ length bs
length-drop-suc zero b bs h = absurd (omega arith)
length-drop-suc (suc n) b bs h = length-drop-le n bs
  where
    length-drop-le : (n : ℕ) (xs : Str) → length (drop n xs) ≤ length xs
    length-drop-le zero xs = omega arith
    length-drop-le (suc n) [] = omega arith
    length-drop-le (suc n) (x ∷ xs) = omega (arith, length-drop-le n xs)

-- If no call of `write` fails, each writes at least one byte or is interrupted, and there are enough of
-- them, `write_all` returns 1 and has written the whole message.
pub write_all_completes :
    (results : List Write) (message : Str)
    → All IsFine results
    → length message ≤ writes results
    → write_all message results ≡ some (pos 1, message)
unfolding write_all
write_all_completes results [] h l = refl
write_all_completes [] (b ∷ bs) h l = absurd (omega arith)
write_all_completes (Write.failed ∷ results) (b ∷ bs) h l = absurd h.0
write_all_completes (Write.interrupted ∷ results) (b ∷ bs) h l =
    write_all_completes results (b ∷ bs) h.1 l
write_all_completes (wrote n ∷ results) (b ∷ bs) h l = ground (
  arith,
  write_all_completes results (drop n (b ∷ bs)) h.1 (omega (arith, length-drop-suc n b bs h.0)),
  take-drop n (b ∷ bs),
)

-- The bytes that arrive.
abbrev pub arriving : List Read → Str
arriving [] = []
arriving (bytes bs ∷ results) = bs ++ arriving results
arriving (_ ∷ results) = arriving results

-- A result of `read` that delivers something, or an interruption.
abbrev pub IsArrival : Read → Type 0
IsArrival (bytes bs) = 1 ≤ length bs
IsArrival Read.interrupted = Unit
IsArrival _ = ⊥

take-append : (n : ℕ) (xs ys : Str) → take n xs ++ take (n - length xs) ys ≡ take n (xs ++ ys)
take-append zero [] ys = ground arith
take-append zero (x ∷ xs) ys = ground arith
take-append (suc n) [] ys = ground arith
take-append (suc n) (x ∷ xs) ys = ground (arith, take-append n xs ys)

read_loop_completes :
    (started : Bool) (results : List Read) (size : ℕ)
    → All IsArrival results
    → size ≤ length (arriving results)
    → read_loop false started size results ≡ some (pos 1, take size (arriving results), false)
unfolding read_loop
read_loop_completes started results zero h l = refl
read_loop_completes started [] (suc n) h l = absurd (omega arith)
read_loop_completes started (end_of_file ∷ results) (suc n) h l = absurd h.0
read_loop_completes started (Read.failed ∷ results) (suc n) h l = absurd h.0
read_loop_completes started (Read.interrupted ∷ results) (suc n) h l =
    read_loop_completes started results (suc n) h.1 l
read_loop_completes started (bytes [] ∷ results) (suc n) h l = absurd (omega (arith, h.0))
read_loop_completes started (bytes (b ∷ bs) ∷ results) (suc n) h l = ground (
  arith,
  read_loop_completes true results (n - length bs) h.1
      (omega (arith, length-append bs (arriving results))),
  take-append n bs (arriving results),
)

-- If no call of `read` fails or ends the file and enough bytes arrive, in pieces of any size and with any
-- interruptions, `read_all` with no `intr` returns 1 with exactly the first `size` of them.
pub read_all_completes :
    (results : List Read) (size : ℕ)
    → All IsArrival results
    → size ≤ length (arriving results)
    → read_all none size results ≡ some (pos 1, take size (arriving results), false)
unfolding read_all
read_all_completes results size h l = read_loop_completes false results size h l

read_loop_whole :
    (has_intr started : Bool) (results : List Read) (size : ℕ) (r : Result)
    → read_loop has_intr started size results ≡ some r
    → r.0 ≡ pos 1
    → length r.1 ≡ size
unfolding read_loop
read_loop_whole has_intr started results zero r e one = ground arith
read_loop_whole has_intr started [] (suc n) r e one = absurd cc
read_loop_whole has_intr started (end_of_file ∷ results) (suc n) r e one = absurd (ground arith)
read_loop_whole has_intr started (Read.failed ∷ results) (suc n) r e one = absurd (ground arith)
read_loop_whole has_intr started (bytes [] ∷ results) (suc n) r e one = absurd (ground arith)
read_loop_whole has_intr started (Read.interrupted ∷ results) (suc n) r e one =
    elim (Option-cases (read_loop has_intr started (suc n) results)) [
      | inl waits ↦ ground arith
      | inr (further, returns) ↦
          ground (arith, read_loop_whole has_intr started results (suc n) further returns)
    ]
read_loop_whole has_intr started (bytes (b ∷ bs) ∷ results) (suc n) r e one =
    elim (Option-cases (read_loop has_intr true (n - length bs) results)) [
      | inl waits ↦ absurd (ground arith)
      | inr (further, returns) ↦ ground (
        arith,
        read_loop_whole has_intr true results (n - length bs) further returns,
        length-append (take n bs) further.1,
        length-take n bs,
      )
    ]

-- Whatever the single calls of `read` return, and whether or not there is an `intr`: if `read_all` returns
-- 1, it has put exactly `size` bytes into the buffer, never fewer and never more.
pub read_all_whole :
    (intr : Option Bool) (results : List Read) (size : ℕ) (r : Result)
    → read_all intr size results ≡ some r
    → r.0 ≡ pos 1
    → length r.1 ≡ size
unfolding read_all
read_all_whole none results size r e one = read_loop_whole false false results size r e one
read_all_whole (some true) results size r e one = absurd (ground arith)
read_all_whole (some false) results size r e one = read_loop_whole true false results size r e one
