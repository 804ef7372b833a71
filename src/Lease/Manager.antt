-- ===== src/Lease/Manager.antt =====
-- `ThreadLeaseManager` of apps/agent/src/v2/services/thread-lease-manager.ts. An operation is cut where it awaits:
-- each part is a function. A lease, with its scope and client, is a number here, and so is a promise of
-- one; what a lease does is in Lease/Thread. Whether a client is created is an event.
pub mod Steps
pub mod Capacity
pub mod Single
use codex_everywhere.Prelude.{
  ℕ, suc, ◌+◌, Bool, true, false, ◌&&◌, ◌||◌, not, List, [], ◌∷◌, ◌++◌, Option, none, some, String,
  same, ltb, leb, ◌==◌, length, if◌then◌else◌,
}
use codex_everywhere.Table.{find, delete, exists, at, lookup, put}

pub record Entry : Type 0 where
  pub thread_id : String
  pub number : ℕ

-- A promise of a lease: whether its client is awaited, or it has ended and is about to settle.
pub record Creation : Type 0 where
  pub thread_id : String
  pub number : ℕ
  pub is_awaiting : Bool

pub record Manager : Type 0 where
  pub leases : List Entry
  pub creating : List Creation
  pub disposing : List Entry
  pub starting : List ℕ
  pub is_closed : Bool
  pub maximum_leases : ℕ
  pub next_number : ℕ

pub data ManagerError : Type 0 where
  manager_closed empty_thread_id capacity_reached already_leased : ManagerError

pub data Acquired : Type 0 where
  found : ℕ → Acquired
  joined : ℕ → Acquired
  creates : ℕ → Acquired
  awaits_disposal : Acquired
  refused : ManagerError → Acquired

pub data Started : Type 0 where
  begun : ℕ → Started
  bound : ℕ → Started
  awaits : Started
  fails : ManagerError → Started
  reference_fails : Started

abbrev pub entry_key : Entry → String
entry_key e = e.thread_id

abbrev pub creation_key : Creation → String
creation_key c = c.thread_id

abbrev pub managing : ℕ → Option Manager
managing n =
    if n == 0
    then none
    else some (record {
      leases = [];
      creating = [];
      disposing = [];
      starting = [];
      is_closed = false;
      maximum_leases = n;
      next_number = 0;
    })

-- The constructor; `none` is its error.
unfoldable pub new_manager : Option ℕ → Option Manager
new_manager none = managing 128
new_manager (some n) = managing n

unfoldable pub is_at_capacity : Manager → Bool
is_at_capacity m =
    leb m.maximum_leases
      (length m.leases + length m.creating + length m.disposing + length m.starting)

abbrev pub create_lease : String → Manager → Manager × Acquired
create_lease id m = if is_at_capacity m then (m, refused capacity_reached) else (
  record m {
    creating =
        put creation_key (record { thread_id = id; number = m.next_number; is_awaiting = true })
          m.creating;
    next_number = suc m.next_number;
  },
  creates m.next_number,
)

abbrev pub join_creation : String → Option Creation → Manager → Manager × Acquired
join_creation id (some c) m = (m, joined c.number)
join_creation id none m = create_lease id m

abbrev pub get_lease : String → Option Entry → Manager → Manager × Acquired
get_lease id (some e) m = (m, found e.number)
get_lease id none m = join_creation id (lookup creation_key id m.creating) m

-- `#getOrCreate` once no disposal is awaited.
unfoldable pub get_or_create : String → Manager → Manager × Acquired
unfolding is_at_capacity
get_or_create id m = get_lease id (lookup entry_key id m.leases) m

-- `acquire` until it awaits.
unfoldable pub acquire : String → Manager → Manager × Acquired
unfolding get_or_create
acquire id m =
    if m.is_closed
    then (m, refused manager_closed)
    else if same id ""
    then (m, refused empty_thread_id)
    else if exists (at entry_key id) m.disposing
    then (m, awaits_disposal)
    else get_or_create id m

-- `acquire` after the disposal that it awaited.
unfoldable pub acquire_after : String → Manager → Manager × Acquired
unfolding get_or_create
acquire_after id m = if m.is_closed then (m, refused manager_closed) else get_or_create id m

abbrev pub set_lease : String → ℕ → Manager → Manager
set_lease id n m = record m {
  leases = put entry_key (record { thread_id = id; number = n }) m.leases;
}

abbrev pub is_awaited : ℕ → Creation → Bool
is_awaited n c = c.number == n && c.is_awaiting

abbrev pub ended : Creation → Creation
ended c = record c { is_awaiting = false }

abbrev pub end_creation : Creation → Manager → Manager
end_creation c m = record m { creating = put creation_key (ended c) m.creating }

abbrev pub created_found : Bool → ℕ → Option Creation → Manager → Manager
created_found works n none m = m
created_found works n (some c) m =
    if is_awaited n c then end_creation c (if works then set_lease c.thread_id n m else m) else m

-- `#create` after its client: it is created, or it is not.
unfoldable pub created : Bool → String → ℕ → Manager → Manager
created works id n m = created_found works n (lookup creation_key id m.creating) m

abbrev pub settled_found : ℕ → Option Creation → Manager → Manager
settled_found n none m = m
settled_found n (some c) m =
    if c.number == n && not c.is_awaiting
    then record m { creating = delete (at creation_key c.thread_id) m.creating }
    else m

-- The `finally` of a creation that has ended.
unfoldable pub creation_settled : String → ℕ → Manager → Manager
creation_settled id n m = settled_found n (lookup creation_key id m.creating) m

abbrev pub is_entry : ℕ → Option Entry → Bool
is_entry n none = false
is_entry n (some e) = e.number == n

-- `#dispose` of a lease until it awaits.
unfoldable pub dispose : String → ℕ → Manager → Manager
dispose id n m =
    if is_entry n (lookup entry_key id m.leases)
    then record m {
      leases = delete (at entry_key id) m.leases;
      disposing = put entry_key (record { thread_id = id; number = n }) m.disposing;
    }
    else m

-- The `finally` of a disposal.
unfoldable pub disposal_settled : String → ℕ → Manager → Manager
disposal_settled id n m =
    if is_entry n (lookup entry_key id m.disposing)
    then record m { disposing = delete (at entry_key id) m.disposing }
    else m

unfoldable pub close_thread : String → Manager → Manager
close_thread id m = record m { leases = delete (at entry_key id) m.leases }

-- What the manager's scope does when it is closed.
unfoldable pub close : Manager → Manager
close m = record m { is_closed = true; leases = []; disposing = [] }

-- `start` until it awaits a client.
unfoldable pub start : Manager → Manager × Started
unfolding is_at_capacity
start m =
    if m.is_closed
    then (m, fails manager_closed)
    else if is_at_capacity m
    then (m, fails capacity_reached)
    else (
      record m { starting = m.starting ++ m.next_number ∷ []; next_number = suc m.next_number },
      begun m.next_number,
    )

abbrev pub without_start : ℕ → Manager → Manager
without_start n m = record m { starting = delete (λ k. k == n) m.starting }

-- The `catch` and the `finally` of `start`.
abbrev pub undo_start : String → ℕ → Manager → Manager
undo_start id n m =
    if is_entry n (lookup entry_key id m.leases)
    then record m { leases = delete (at entry_key id) m.leases }
    else m

-- `start` once nothing is awaited; whether the reference can be attached.
unfoldable pub bind_start : Bool → String → ℕ → Manager → Manager × Started
bind_start attaches id n m =
    if m.is_closed
    then (m, fails manager_closed)
    else if exists (at entry_key id) m.leases || exists (at creation_key id) m.creating
    then (m, fails already_leased)
    else let leased = without_start n (set_lease id n m) in
      if attaches then (leased, bound n) else (undo_start id n leased, reference_fails)

-- `start` after the thread is initialized.
unfoldable pub initialized : Bool → String → ℕ → Manager → Manager × Started
unfolding bind_start
initialized attaches id n m =
    if same id ""
    then (m, fails empty_thread_id)
    else if m.is_closed
    then (m, fails manager_closed)
    else if exists (at entry_key id) m.disposing
    then (m, awaits)
    else bind_start attaches id n m
