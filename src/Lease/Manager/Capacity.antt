-- ===== src/Lease/Manager/Capacity.antt =====
-- `#assertCapacity` of apps/agent/src/v2/services/thread-lease-manager.ts against the clients of
-- app-server.
use codex_everywhere.Prelude.{ℕ, ◌+◌, ◌≤◌, ◌≡◌, Bool, length}
use codex_everywhere.Table.{modified}
use codex_everywhere.Lease.Manager.{Creation, Manager}

abbrev pub awaiting : Creation → Bool
awaiting c = c.is_awaiting

-- The leases, and the clients that are awaited.
unfoldable pub clients : Manager → ℕ
clients m = length m.leases + modified awaiting m.creating + length m.starting

module _ (limit : ℕ) where
  record IsWithin (m : Manager) : Type 0 where
    given : m.maximum_leases ≡ limit
    within : clients m ≤ limit
