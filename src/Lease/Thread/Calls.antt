-- ===== src/Lease/Thread/Calls.antt =====
-- What is asked of a `ThreadLease` of apps/agent/src/v2/services/thread-lease-manager.ts: answers of a device, turns that
-- are started and observed, and the thread as app-server reads it.
use codex_everywhere.Prelude.{
  Bool, true, ◌||◌, not, List, [], ◌∷◌, Option, none, some, String, same, if◌then◌else◌,
}
use codex_everywhere.Interaction.{
  Broker, InteractionResponse, Outcome, returned, thrown, callback_failed,
}
use codex_everywhere.Interaction.{respond as broker_respond}
use codex_everywhere.Lease.Turns.{
  terminal_key, observe_terminal_turn, observe_turn_start_response, note_ended,
}
use codex_everywhere.Lease.Thread.{
  ThreadLeaseState, idle, running, failed, state_is, LeaseError, lease_closed, empty_id,
  different_thread, no_directory, invalid_status, Lease, same_state, emit,
}
use codex_everywhere.Table.{exists, at}
use codex_everywhere.Lease.Thread.Events.{
  or_else, is_text, waiting_or, announce, hear_resolved, hear_failed,
}

abbrev pub responded :
    String → Lease → Broker × Outcome (Unit {0}) → Lease × Option (Outcome (Unit {0}))
responded id l (b, returned u) =
    (hear_resolved id (record l { interactions = b }), some (returned u))
responded id l (b, thrown callback_failed) = (
  hear_failed id "response-failed" (record l { interactions = b }),
  some (thrown callback_failed),
)
responded id l (b, thrown e) = (record l { interactions = b }, some (thrown e))

-- `none` where the lease is closed.
unfoldable pub respond_to_interaction :
    Bool → String → InteractionResponse → Lease → Lease × Option (Outcome (Unit {0}))
unfolding broker_respond
respond_to_interaction works id response l =
    if l.closed then (l, none) else responded id l (broker_respond works id response l.interactions)

-- The turn runs, unless it has ended already.
abbrev pub started : String → Lease → Lease
started id l =
    if exists (at terminal_key id) l.turns.terminals
    then record l { turns = note_ended id l.turns }
    else announce l.state (record l { state = waiting_or running l; current_turn_id = some id })

unfoldable pub note_turn_started : String → Lease → Lease × Option LeaseError
unfolding note_ended
note_turn_started id l =
    if l.closed
    then (l, some lease_closed)
    else if same id ""
    then (l, some empty_id)
    else (started id l, none)

unfoldable pub observe_turn : String → Lease → Lease × Option LeaseError
unfolding observe_terminal_turn
observe_turn id l =
    if l.closed
    then (l, some lease_closed)
    else if same id ""
    then (l, some empty_id)
    else (record l { turns = observe_terminal_turn id l.turns }, none)

unfoldable pub observe_start : Lease → Lease × Option LeaseError
unfolding observe_turn_start_response
observe_start l =
    if l.closed
    then (l, some lease_closed)
    else (record l { turns = observe_turn_start_response l.turns }, none)

pub record Turn : Type 0 where
  pub id : Option String
  pub status : Option String

-- A thread as app-server reads it: its identifier, directory, the type of its status and its turns.
pub record Thread : Type 0 where
  pub id : Option String
  pub cwd : Option String
  pub status : Option String
  pub turns : List Turn

-- The last turn in progress.
unfoldable pub active_turn_id : List Turn → Option String
active_turn_id [] = none
active_turn_id (t ∷ ts) =
    or_else (active_turn_id ts) (if is_text "inProgress" t.status then t.id else none)

abbrev pub authoritative_state : String → Lease → ThreadLeaseState
authoritative_state status l =
    if same status "active"
    then waiting_or running l
    else if same status "systemError"
    then failed
    else idle

abbrev pub announce_first : Bool → ThreadLeaseState → Lease → Lease
announce_first is_first previous l =
    if is_first || not (same_state l.state previous) then emit (state_is l.state) l else l

abbrev pub adopt_status : Thread → Option String → Lease → Lease × Option LeaseError
adopt_status t none l = (l, some invalid_status)
adopt_status t (some status) l = (
  announce_first (not l.has_authoritative_state) l.state (record l {
    has_authoritative_state = true;
    state = authoritative_state status l;
    current_turn_id = active_turn_id t.turns;
  }),
  none,
)

abbrev pub adopt_directory : Thread → Option String → Lease → Lease × Option LeaseError
adopt_directory t none l = (l, some no_directory)
adopt_directory t (some cwd) l =
    if same cwd ""
    then (l, some no_directory)
    else adopt_status t t.status (record l { workspace_path = some cwd })

-- `adoptAuthoritativeThread`; the lease itself holds what it returns.
unfoldable pub adopt_authoritative_thread : Thread → Lease → Lease × Option LeaseError
unfolding active_turn_id
adopt_authoritative_thread t l =
    if l.closed
    then (l, some lease_closed)
    else if not (is_text l.thread_id t.id)
    then (l, some different_thread)
    else adopt_directory t t.cwd l
