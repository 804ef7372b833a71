-- ===== src/Lease/Thread/Held.antt =====
-- The references of a `ThreadLease` of apps/agent/src/v2/services/thread-lease-manager.ts against
-- its handles.
use codex_everywhere.Prelude.{
  ℕ, ◌+◌, ◌≡◌, Bool, ◌&&◌, not, List, [], ◌∷◌, String, same, if◌then◌else◌,
}
use codex_everywhere.Lease.Counts.{count_of}
use codex_everywhere.Lease.Thread.{Lease, reference_key}
use codex_everywhere.Lease.Thread.Handles.{Handle, Attached}

is_held : String → Handle → Bool
unfolding reference_key
is_held k h = not h.released && same (reference_key h.kind h.id) k

abbrev one_if : Bool → ℕ
one_if b = if b then 1 else 0

-- The handles for a reference that are not released.
held : String → List Handle → ℕ
held k [] = 0
held k (h ∷ hs) = one_if (is_held k h) + held k hs

-- The references that are counted are the handles that are not released.
module _ (k : String) where
  abbrev IsCounted : Attached → Type 0
  IsCounted a = count_of k a.lease.references ≡ held k a.handles
