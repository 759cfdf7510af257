-- ===== src/Pipes.antt =====
-- proj_p2/src/common/io.c and the write loop of server/io.c: reading and writing a pipe in pieces. What
-- the calls of `read` and `write` return is a list of results; a loop that gets to its end waits for more.
pub mod Whole
use ist_key_value_store.Prelude.{
  ℕ, zero, suc, ◌+◌, ◌-◌, List, [], ◌∷◌, ◌++◌, Option, none, some, Bool, true, false, ℤ, pos,
  negsuc, ◌==◌, ◌&&◌, ◌||◌, leb, take, drop, length, if◌then◌else◌,
}
use ist_key_value_store.CString.{Str}

-- What `read` returns: bytes, of which it delivers as many as it is asked for at most; the end of the
-- file; an interruption by a signal; another error.
pub data Read : Type 0 where
  bytes : Str → Read
  end_of_file interrupted failed : Read

-- What a reading loop leaves: the value that it returns, the bytes in the buffer, and `*intr`.
abbrev pub Result : Type 0
Result = ℤ × Str × Bool

-- Bytes put in front of what a loop delivers behind them.
abbrev pub in_front : Str → Option Result → Option Result
in_front bs none = none
in_front bs (some (value, buffer, intr)) = some (value, bs ++ buffer, intr)

abbrev pub with_intr : Option Result → Option Result
with_intr none = none
with_intr (some (value, buffer, intr)) = some (value, buffer, true)

-- The loop of `read_all` with `n` bytes to come and `intr` not NULL or NULL; `started` is whether a byte
-- has been read. `none` waits for a result that is not in the list.
unfoldable pub read_loop : Bool → Bool → ℕ → List Read → Option Result
read_loop has_intr started zero results = some (pos 1, [], false)
read_loop has_intr started (suc n) [] = none
read_loop has_intr started (suc n) (failed ∷ results) = some (negsuc 0, [], false)
read_loop has_intr started (suc n) (end_of_file ∷ results) = some (pos 0, [], false)
read_loop has_intr started (suc n) (interrupted ∷ results) =
    let further = read_loop has_intr started (suc n) results in
    if has_intr then (if started then with_intr further else some (negsuc 0, [], true)) else further
read_loop has_intr started (suc n) (bytes [] ∷ results) = some (pos 0, [], false)
read_loop has_intr started (suc n) (bytes (b ∷ bs) ∷ results) =
    in_front (b ∷ take n bs) (read_loop has_intr true (n - length bs) results)

-- `intr` is NULL, or points to the flag that was set before.
unfoldable pub read_all : Option Bool → ℕ → List Read → Option Result
unfolding read_loop
read_all none size results = read_loop false false size results
read_all (some true) size results = some (negsuc 0, [], true)
read_all (some false) size results = read_loop true false size results

-- What `write` returns: how many bytes were written, or an error.
pub data Write : Type 0 where
  wrote : ℕ → Write
  interrupted failed : Write

abbrev pub written_first : Str → Option (ℤ × Str) → Option (ℤ × Str)
written_first bs none = none
written_first bs (some (value, out)) = some (value, bs ++ out)

-- The loop of `write_all` over the bytes that are left: the value that it returns, and what was written.
unfoldable pub write_all : Str → List Write → Option (ℤ × Str)
write_all [] results = some (pos 1, [])
write_all (b ∷ bs) [] = none
write_all (b ∷ bs) (failed ∷ results) = some (negsuc 0, [])
write_all (b ∷ bs) (interrupted ∷ results) = write_all (b ∷ bs) results
write_all (b ∷ bs) (wrote n ∷ results) =
    written_first (take n (b ∷ bs)) (write_all (drop n (b ∷ bs)) results)

-- `write_str` of server/io.c, which stops at any error.
unfoldable pub write_str : Str → List Write → Option Str
write_str [] results = some []
write_str (b ∷ bs) [] = none
write_str (b ∷ bs) (failed ∷ results) = some []
write_str (b ∷ bs) (interrupted ∷ results) = some []
write_str (b ∷ bs) (wrote n ∷ results) = elim (write_str (drop n (b ∷ bs)) results) [
  | none ↦ none
  | some out ↦ some (take n (b ∷ bs) ++ out)
]

-- The loop of `read_string` with room for `n` more bytes, one byte at a time; `none` where it returns -1.
unfoldable pub read_string : ℕ → Str → Option (Str × Str)
read_string zero input = some ([], input)
read_string (suc n) [] = none
read_string (suc n) (ch ∷ input) =
    let further = read_string n input in
    if ch == 0 || ch == b'\n'
    then some ([], input)
    else elim further [ none ↦ none | some (str, rest) ↦ some (ch ∷ str, rest) ]
