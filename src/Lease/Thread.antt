-- ===== src/Lease/Thread.antt =====
-- `ThreadLease` of apps/agent/src/v2/services/thread-lease-manager.ts: one client of app-server and one interaction
-- broker for a live thread. Of the JSON of a notification the model keeps what the lease reads; what its listeners
-- are told is a log, newest first. Disposal is a call of the manager: it is counted.
pub mod Events
pub mod Calls
pub mod Handles
pub mod Kept
pub mod Held
use codex_everywhere.Prelude.{
  ℕ, suc, ◌+◌, Bool, true, false, ◌&&◌, ◌||◌, not, List, [], ◌∷◌, ◌++◌, Option, none, some, String,
  same, ltb, if◌then◌else◌,
}
use Prim.Native.String.{◌++◌ as concat_texts}
use codex_everywhere.Interaction.{Broker, ServerRequest}
use codex_everywhere.Lease.Counts.{Count, add_count, release_count}
use codex_everywhere.Lease.Turns.{Turns, new_turns}

pub data ThreadLeaseState : Type 0 where
  idle running waiting_input failed : ThreadLeaseState

pub data ThreadLeaseReferenceKind : Type 0 where
  viewer queue effect : ThreadLeaseReferenceKind

pub data ThreadLeaseEvent : Type 0 where
  state_is : ThreadLeaseState → ThreadLeaseEvent
  context_usage : String → ThreadLeaseEvent
  notified : String → ThreadLeaseEvent
  generic : String → Bool → ThreadLeaseEvent
  interaction_created : String → ThreadLeaseEvent
  interaction_resolved : String → ThreadLeaseEvent
  interaction_failed : String → String → ThreadLeaseEvent
  lease_failed : String → ThreadLeaseEvent

pub data LeaseError : Type 0 where
  lease_closed empty_id different_thread no_directory invalid_status : LeaseError

-- What a callback has left to do, after `Promise.resolve()`.
pub data Cleanup : Type 0 where
  when_idle : Cleanup
  at_once : Cleanup

pub record Lease : Type 0 where
  pub thread_id : String
  pub closed : Bool
  pub state : ThreadLeaseState
  pub current_turn_id : Option String
  pub references : List Count
  pub interactions : Broker
  pub turns : Turns
  pub workspace_path : Option String
  pub usage : Option String
  pub has_authoritative_state : Bool
  pub emitted : List ThreadLeaseEvent
  pub cleanups : List Cleanup
  pub disposals : ℕ

unfoldable pub new_lease : String → Lease
unfolding new_turns
new_lease id = record {
  thread_id = id;
  closed = false;
  state = idle;
  current_turn_id = none;
  references = [];
  interactions = record { entries = []; callbacks = []; events = [] };
  turns = new_turns;
  workspace_path = none;
  usage = none;
  has_authoritative_state = false;
  emitted = [];
  cleanups = [];
  disposals = 0;
}

abbrev pub same_state : ThreadLeaseState → ThreadLeaseState → Bool
same_state idle idle = true
same_state running running = true
same_state waiting_input waiting_input = true
same_state failed failed = true
same_state _ _ = false

abbrev pub is_empty {ℓ} : {A : Type ℓ} → List A → Bool
is_empty [] = true
is_empty (x ∷ xs) = false

abbrev pub emit : ThreadLeaseEvent → Lease → Lease
emit e l = record l { emitted = e ∷ l.emitted }

-- A state that is announced whether or not it is new.
abbrev pub enter : ThreadLeaseState → Lease → Lease
enter st l = emit (state_is st) (record l { state = st })

-- `#runBackgroundCleanup`.
abbrev pub clean_up : Cleanup → Lease → Lease
clean_up c l = record l { cleanups = l.cleanups ++ c ∷ [] }

abbrev pub dispose : Lease → Lease
dispose l = record l { disposals = suc l.disposals }

unfoldable pub can_dispose : Lease → Bool
can_dispose l =
    not l.closed
    && (same_state l.state idle && (is_empty l.references && is_empty l.interactions.entries))

unfoldable pub dispose_if_idle : Lease → Lease
unfolding can_dispose
dispose_if_idle l = if can_dispose l then dispose l else l

abbrev pub kind_name : ThreadLeaseReferenceKind → String
kind_name viewer = "viewer"
kind_name queue = "queue"
kind_name effect = "effect"

-- `${kind}:${id}`.
unfoldable pub reference_key : ThreadLeaseReferenceKind → String → String
reference_key kind id = concat_texts (kind_name kind) (concat_texts ":" id)

unfoldable pub add_reference : ThreadLeaseReferenceKind → String → Lease → Lease × Option LeaseError
unfolding reference_key add_count
add_reference kind id l =
    if l.closed
    then (l, some lease_closed)
    else if same id ""
    then (l, some empty_id)
    else (record l { references = add_count (reference_key kind id) l.references }, none)

unfoldable pub release_reference : ThreadLeaseReferenceKind → String → Lease → Lease
unfolding reference_key release_count dispose_if_idle
release_reference kind id l =
    dispose_if_idle (record l { references = release_count (reference_key kind id) l.references })

-- What a cleanup's disposal that fails leaves.
abbrev pub contain : Bool → Lease → Lease
contain works l = if works then l else emit (lease_failed "lease-disposal-failed") (enter failed l)

abbrev pub run_cleanup : Bool → Cleanup → Lease → Lease
unfolding dispose_if_idle can_dispose
run_cleanup works at_once l = contain works (dispose l)
run_cleanup works when_idle l = if can_dispose l then contain works (dispose l) else l

abbrev pub first_cleanup : Bool → List Cleanup → Lease → Lease
first_cleanup works [] l = l
first_cleanup works (c ∷ cs) l = run_cleanup works c (record l { cleanups = cs })

-- The oldest cleanup runs; whether the disposal that it asks for works.
unfoldable pub next_cleanup : Bool → Lease → Lease
next_cleanup works l = first_cleanup works l.cleanups l
