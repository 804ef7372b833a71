-- ===== src/Lease/Manager/Single.antt =====
-- The leases of a thread in apps/agent/src/v2/services/thread-lease-manager.ts, beside those being
-- created.
use codex_everywhere.Prelude.{◌≡◌, Bool, true, false, ◌&&◌, Option, none, some, String}
use codex_everywhere.Table.{lookup}
use codex_everywhere.Lease.Manager.{Entry, Creation, Manager, entry_key, creation_key}

abbrev pub is_there : Option Entry → Bool
is_there none = false
is_there (some e) = true

abbrev pub is_waiting : Option Creation → Bool
is_waiting none = false
is_waiting (some c) = c.is_awaiting

module _ (k : String) where
  -- It has no lease while one is created for it.
  abbrev IsSingle : Manager → Type 0
  IsSingle m =
      (is_there (lookup entry_key k m.leases) && is_waiting (lookup creation_key k m.creating))
      ≡ false
