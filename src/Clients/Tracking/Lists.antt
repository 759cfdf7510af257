-- ===== src/Clients/Tracking/Lists.antt =====
-- server/operations.c: the lists of a key and of a client under a subscription and its cancellation.
use ist_key_value_store.Prelude.{
  ℕ, ◌≡◌, ◌≢◌, refl, inl, inr, Option, none, some, List, [], ◌∷◌, ◌++◌, true, false, arith, All,
  Bool-cases,
}
use ist_key_value_store.CString.{Str, str_eq}
use ist_key_value_store.CString.Order.{str_eq_iff}
use ist_key_value_store.Table.{Subscribers, is_subscribed, remove_fd}
use ist_key_value_store.Kvs.SubscriberList.{
  IsOnce, count_fd-append, count_fd-remove_fd_once, count_fd-is_subscribed, is_subscribed-count_fd,
}
use ist_key_value_store.Clients.{remove_key}
use ist_key_value_store.Clients.Subscribe.{subscribed, list_for}
use ist_key_value_store.Clients.Forget.{is_listed}

subscribed-IsOnce : (fd : ℕ) (ss : Subscribers) → IsOnce ss → IsOnce (subscribed fd ss)
subscribed-IsOnce fd ss once g = elim (Bool-cases (is_subscribed fd ss)) [
  | inl there ↦ rw there (once g)
  | inr absent ↦
      rw absent
        (ground (arith, once g, count_fd-append g fd ss, is_subscribed-count_fd fd ss absent))
]

pub list_for-IsOnce :
    (o : Option Str) (fd : ℕ) (ss : Subscribers) → IsOnce ss → IsOnce (list_for o fd ss)
list_for-IsOnce none fd ss once = once
list_for-IsOnce (some v) fd ss once = subscribed-IsOnce fd ss once

is_subscribed-append :
    (fd g : ℕ) (ss : Subscribers) → fd ≢ g → is_subscribed fd (ss ++ g ∷ []) ≡ is_subscribed fd ss
unfolding is_subscribed
is_subscribed-append fd g [] ne = ground (arith, ne)
is_subscribed-append fd g (s ∷ ss) ne = ground (arith, is_subscribed-append fd g ss ne)

-- A new subscription of another pipe is none of `fd`.
pub is_subscribed-list_for :
    (o : Option Str) (fd g : ℕ) (ss : Subscribers)
    → fd ≢ g
    → is_subscribed fd (list_for o g ss) ≡ is_subscribed fd ss
is_subscribed-list_for none fd g ss ne = refl
is_subscribed-list_for (some v) fd g ss ne = elim (Bool-cases (is_subscribed g ss)) [
  | inl there ↦ rw there refl
  | inr absent ↦ rw absent (is_subscribed-append fd g ss ne)
]

pub list_for-there :
    (o : Option Str) (fd : ℕ) (ss : Subscribers)
    → is_subscribed fd ss ≡ true
    → list_for o fd ss ≡ ss
list_for-there none fd ss there = refl
list_for-there (some v) fd ss there = rw there refl

pub is_listed-remove_key :
    (key j : Str) (keys : List Str)
    → str_eq key j ≡ false
    → is_listed j keys ≡ true
    → is_listed j (remove_key key keys) ≡ true
unfolding is_listed remove_key
is_listed-remove_key key j [] ne h = h
is_listed-remove_key key j (k ∷ keys) ne h =
    ground
      (arith, is_listed-remove_key key j keys, str_eq_iff key j, str_eq_iff k key, str_eq_iff k j)

pub All-remove_key :
    (P : Str → Type 0) (key : Str) (keys : List Str) → All P keys → All P (remove_key key keys)
unfolding remove_key
All-remove_key P key [] h = h
All-remove_key P key (k ∷ keys) h = elim (Bool-cases (str_eq k key)) [
  | inl same ↦ rw same (All-remove_key P key keys h.1)
  | inr other ↦ rw other (h.0, All-remove_key P key keys h.1)
]

pub remove_fd-IsOnce : (fd : ℕ) (ss : Subscribers) → IsOnce ss → IsOnce (remove_fd fd ss)
remove_fd-IsOnce fd ss once g = ground (arith, count_fd-remove_fd_once fd g ss once, once g)

pub remove_fd-gone :
    (fd : ℕ) (ss : Subscribers) → IsOnce ss → is_subscribed fd (remove_fd fd ss) ≡ false
remove_fd-gone fd ss once =
    count_fd-is_subscribed fd (remove_fd fd ss)
      (ground (arith, count_fd-remove_fd_once fd fd ss once))

pub is_subscribed-remove_fd :
    (fd g : ℕ) (ss : Subscribers) → fd ≢ g → is_subscribed fd (remove_fd g ss) ≡ is_subscribed fd ss
unfolding is_subscribed remove_fd
is_subscribed-remove_fd fd g [] ne = refl
is_subscribed-remove_fd fd g (s ∷ ss) ne = ground (arith, ne, is_subscribed-remove_fd fd g ss ne)
