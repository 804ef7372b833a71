-- ===== src/Relay/Bridge/Budget.antt =====
-- The reserved bytes of apps/relay/src/relay-server.ts against the frames that are on their way.
use codex_everywhere.Prelude.{ℕ, ◌+◌, ◌≤◌, ◌≡◌, Bool, List, [], ◌∷◌}
use codex_everywhere.Relay.Bridge.{Reservation, Buffers, forward, settle, finish}

pub data Event : Type 0 where
  forwards : ℕ → ℕ → Bool → ℕ → Event
  settles : ℕ → Event
  finishes : ℕ → Event

unfoldable pub perform : Event → Buffers → Buffers
unfolding forward settle finish
perform (forwards tunnel bytes opened buffered) b = (forward tunnel bytes opened buffered b).0
perform (settles serial) b = settle serial b
perform (finishes tunnel) b = finish tunnel b

unfoldable pub run : List Event → Buffers → Buffers
unfolding perform
run [] b = b
run (e ∷ es) b = run es (perform e b)

-- The bytes that are on their way.
unfoldable pub total : List Reservation → ℕ
total [] = 0
total (x ∷ xs) = x.bytes + total xs

record IsCounted (m : ℕ) (b : Buffers) : Type 0 where
  limit : b.maximum_bytes ≡ m
  counted : b.reserved_bytes ≡ total b.reservations
  bounded : b.reserved_bytes ≤ m
