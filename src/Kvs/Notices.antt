-- ===== src/Kvs/Notices.antt =====
-- Notifications: what `notify_subscribers` of server/kvs.c sends, and to whom.
use ist_key_value_store.Prelude.{◌≡◌, List, [], ◌∷◌, ◌++◌, append_assoc, append-nil, some}
use ist_key_value_store.CString.{Str}
use ist_key_value_store.Table.{Subscribers}
use ist_key_value_store.Machine.{World, Sent}
use ist_key_value_store.Kvs.{notify_subscribers, key_message_size}

-- A subscriber is told a change by its key and then its new value.
abbrev pub notices : Subscribers → Str → Str → List Sent
notices [] key value = []
notices (fd ∷ next) key value =
    record { fd = fd; text = key; size = key_message_size }
    ∷ record { fd = fd; text = value; size = key_message_size }
    ∷ notices next key value

-- `notify_subscribers` sends the key and then the value, 41 bytes from each, to every subscriber in the
-- order of the list, and changes nothing else.
pub notify_subscribers-notices :
    (fds : Subscribers) (key value : Str) (w : World)
    → notify_subscribers fds key value w
      ≡ some (tt, record w { sent = w.sent ++ notices fds key value })
unfolding notify_subscribers
notify_subscribers-notices [] key value w = simp append-nil
notify_subscribers-notices (fd ∷ next) key value w =
    rw (notify_subscribers-notices next key value _) (simp append_assoc)
