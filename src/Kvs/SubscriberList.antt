-- ===== src/Kvs/SubscriberList.antt =====
-- server/kvs.c: `add_subscriber` and `remove_subscriber` keep each pipe on a list once at most.
use ist_key_value_store.Prelude.{
  ℕ, ◌+◌, ◌≤◌, ◌≡◌, refl, true, false, some, [], ◌∷◌, ◌++◌, arith, ◌==◌, if◌then◌else◌, pos,
  Bool-cases, inl, inr,
}
use ist_key_value_store.Table.{Subscribers, KeyNode, is_subscribed, remove_fd}
use ist_key_value_store.Machine.{World}
use ist_key_value_store.Machine.Rules.{malloc-succeeds}
use ist_key_value_store.Kvs.{add_subscriber, remove_subscriber}

-- How often a pipe stands on a list.
unfoldable pub count_fd : ℕ → Subscribers → ℕ
count_fd fd [] = 0
count_fd fd (s ∷ ss) = (if s == fd then 1 else 0) + count_fd fd ss

-- No pipe is on the list twice, so no client is notified twice of one change.
abbrev pub IsOnce : Subscribers → Type 0
IsOnce ss = (fd : ℕ) → count_fd fd ss ≤ 1

pub count_fd-append :
    (fd g : ℕ) (ss : Subscribers)
    → count_fd fd (ss ++ g ∷ []) ≡ count_fd fd ss + (if g == fd then 1 else 0)
unfolding count_fd
count_fd-append fd g [] = ground arith
count_fd-append fd g (s ∷ ss) = ground (arith, count_fd-append fd g ss)

pub is_subscribed-count_fd :
    (fd : ℕ) (ss : Subscribers) → is_subscribed fd ss ≡ false → count_fd fd ss ≡ 0
unfolding count_fd is_subscribed
is_subscribed-count_fd fd [] h = refl
is_subscribed-count_fd fd (s ∷ ss) h = ground (arith, is_subscribed-count_fd fd ss)

pub count_fd-is_subscribed :
    (fd : ℕ) (ss : Subscribers) → count_fd fd ss ≡ 0 → is_subscribed fd ss ≡ false
unfolding count_fd is_subscribed
count_fd-is_subscribed fd [] h = refl
count_fd-is_subscribed fd (s ∷ ss) h = ground (arith, count_fd-is_subscribed fd ss)

count_fd-remove_fd :
    (fd g : ℕ) (ss : Subscribers)
    → is_subscribed g ss ≡ true
    → count_fd fd (remove_fd g ss) + (if g == fd then 1 else 0) ≡ count_fd fd ss
unfolding count_fd remove_fd is_subscribed
count_fd-remove_fd fd g [] h = ground arith
count_fd-remove_fd fd g (s ∷ ss) h = ground (arith, count_fd-remove_fd fd g ss)

pub remove_fd-absent :
    (fd : ℕ) (ss : Subscribers) → is_subscribed fd ss ≡ false → remove_fd fd ss ≡ ss
unfolding is_subscribed remove_fd
remove_fd-absent fd [] h = refl
remove_fd-absent fd (s ∷ ss) h = ground (arith, remove_fd-absent fd ss)

-- Removing a pipe from a list that holds none twice leaves all others.
pub count_fd-remove_fd_once :
    (fd g : ℕ) (ss : Subscribers)
    → IsOnce ss
    → count_fd g (remove_fd fd ss) ≡ (if g == fd then 0 else count_fd g ss)
count_fd-remove_fd_once fd g ss once = elim (Bool-cases (is_subscribed fd ss)) [
  | inl there ↦ ground (arith, once g, count_fd-remove_fd g fd ss)
  | inr absent ↦ ground (arith, remove_fd-absent fd ss absent, is_subscribed-count_fd fd ss absent)
]

is_subscribed-append : (fd : ℕ) (ss : Subscribers) → is_subscribed fd (ss ++ fd ∷ []) ≡ true
unfolding is_subscribed
is_subscribed-append fd [] = ground arith
is_subscribed-append fd (s ∷ ss) = ground (arith, is_subscribed-append fd ss)

module _ (node : KeyNode) (fd : ℕ) (once : IsOnce node.subscriber) where
  -- Once a pipe has been removed from a list that holds no pipe twice, it is not on the list; every
  -- other pipe is there as before, no pipe is there twice, and the result is 0 exactly if it was there.
  pub remove_subscriber_lem :
      let r = remove_subscriber node fd in
      (r.0 ≡ (if is_subscribed fd node.subscriber then 0 else 1))
      × (is_subscribed fd r.1.subscriber ≡ false)
      × IsOnce r.1.subscriber
      × ((g : ℕ) → count_fd g r.1.subscriber ≡ (if g == fd then 0 else count_fd g node.subscriber))
  unfolding remove_subscriber
  remove_subscriber_lem =
      let before = node.subscriber in
      elim (Bool-cases (is_subscribed fd before)) [
        | inl there ↦ rw there (
          refl,
          removed there,
          (λ g. ground (arith, once g, count_fd-remove_fd g fd before)),
          λ g. ground (arith, once g, count_fd-remove_fd g fd before),
        )
        | inr not_there ↦
            rw not_there
              (refl, not_there, once, λ g. ground (arith, is_subscribed-count_fd fd before))
      ]
    where
      removed :
          is_subscribed fd node.subscriber ≡ true
          → is_subscribed fd (remove_fd fd node.subscriber) ≡ false
      removed there =
          count_fd-is_subscribed fd (remove_fd fd node.subscriber)
            (ground (arith, once fd, count_fd-remove_fd fd fd node.subscriber))

  -- The list that `add_subscriber` leaves: the pipe is added last, unless it is on the list.
  abbrev pub added : Subscribers
  added = if is_subscribed fd node.subscriber then node.subscriber else node.subscriber ++ fd ∷ []

  -- `add_subscriber`, with memory left, returns 1 and changes nothing if the pipe is on the list, and
  -- returns 0 and adds it last if it is not; then the pipe is on the list, and no pipe is there twice.
  pub add_subscriber_lem :
      (w : World)
      → w.allocs ≡ []
      → (add_subscriber node fd w
          ≡ some (
            (
              (if is_subscribed fd node.subscriber then pos 1 else pos 0),
              record node { subscriber = added },
            ),
            w,
          ))
        × (is_subscribed fd added ≡ true)
        × IsOnce added
  unfolding add_subscriber
  add_subscriber_lem w memory = (
    ground (arith, malloc-succeeds w memory),
    ground (arith, is_subscribed-append fd node.subscriber),
    λ g. ground (
      arith,
      once g,
      count_fd-append g fd node.subscriber,
      is_subscribed-count_fd fd node.subscriber,
    ),
  )
