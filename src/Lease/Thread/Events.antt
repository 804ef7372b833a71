-- ===== src/Lease/Thread/Events.antt =====
-- What a `ThreadLease` of apps/agent/src/v2/services/thread-lease-manager.ts does when app-server notifies, asks or is
-- gone, and when a device answers.
use codex_everywhere.Prelude.{
  Bool, true, false, ◌&&◌, ◌||◌, List, [], ◌∷◌, Option, none, some, String, same, if◌then◌else◌,
}
use codex_everywhere.Interaction.{
  Broker, BrokerEntry, Outcome, Interaction, ServerRequest, returned, thrown, error,
}
use codex_everywhere.Interaction.{add as broker_add, fail_all as broker_fail_all, call_back}
use codex_everywhere.Lease.Turns.{Turns, complete_turn}
use codex_everywhere.Lease.Thread.{
  ThreadLeaseState, idle, running, waiting_input, failed, state_is, context_usage, notified,
  generic, interaction_created, interaction_resolved, interaction_failed, lease_failed, when_idle,
  at_once, Lease, same_state, is_empty, emit, enter, clean_up,
}

-- What the lease reads of a notification's parameters; `valid` where they are JSON. The identifier and status of the
-- turn are not empty where they are there.
pub record Notification : Type 0 where
  pub method : String
  pub thread_id : Option String
  pub nested_thread_id : Option String
  pub valid : Bool
  pub is_known : Bool
  pub turn_id : Option String
  pub turn_status : Option String
  pub status_type : Option String
  pub usage : Option String

unfoldable pub request_thread_id : Option String → Option String → Option String
request_thread_id (some id) nested = some id
request_thread_id none nested = nested

abbrev pub is_text : String → Option String → Bool
is_text id none = false
is_text id (some other) = same other id

abbrev pub or_else : Option String → Option String → Option String
or_else none other = other
or_else (some id) other = some id

-- The state while a turn goes on, or after it.
abbrev pub waiting_or : ThreadLeaseState → Lease → ThreadLeaseState
waiting_or other l = if is_empty l.interactions.entries then other else waiting_input

abbrev pub completed_turn : Option String → Option String → Turns → Turns
completed_turn (some id) (some status) s = complete_turn id status s
completed_turn _ _ s = s

abbrev pub current_after : Option String → Option String → Option String
current_after none current = none
current_after (some id) none = none
current_after (some id) (some current) = if same id current then none else some current

abbrev pub state_of_status : Option String → ThreadLeaseState → ThreadLeaseState
state_of_status none st = st
state_of_status (some status) st =
    if same status "idle" || same status "notLoaded"
    then idle
    else if same status "active"
    then running
    else if same status "systemError"
    then failed
    else st

abbrev pub announce : ThreadLeaseState → Lease → Lease
announce previous l = if same_state l.state previous then l else emit (state_is l.state) l

abbrev pub changed_by : Notification → Lease → Lease
changed_by n l =
    if same n.method "turn/started"
    then record l { state = running; current_turn_id = or_else n.turn_id l.current_turn_id }
    else if same n.method "turn/completed"
    then record l {
      state = waiting_or idle l;
      turns = completed_turn n.turn_id n.turn_status l.turns;
      current_turn_id = current_after n.turn_id l.current_turn_id;
    }
    else if same n.method "thread/status/changed"
    then record l { state = state_of_status n.status_type l.state }
    else l

unfoldable pub update_state : Notification → Lease → Lease
unfolding complete_turn
update_state n l = clean_up when_idle (announce l.state (changed_by n l))

abbrev pub with_usage : Option String → Lease → Lease
with_usage none l = l
with_usage (some u) l = emit (context_usage u) (record l { usage = some u })

abbrev pub tell : Notification → Lease → Lease
tell n l =
    if n.is_known
    then emit (notified n.method)
        (if same n.method "thread/tokenUsage/updated" then with_usage n.usage l else l)
    else emit (generic n.method true) l

unfoldable pub notification : Notification → Lease → Lease
unfolding request_thread_id update_state
notification n l =
    if is_text l.thread_id (request_thread_id n.thread_id n.nested_thread_id)
    then if n.valid then tell n (update_state n l) else emit (generic n.method false) l
    else l

-- The listener of `created`.
abbrev pub hear_created : String → Lease → Lease
hear_created id l = emit (interaction_created id) (enter waiting_input l)

-- The listener of `resolved`.
abbrev pub hear_resolved : String → Lease → Lease
hear_resolved id l =
    let told = emit (interaction_resolved id) l in
    clean_up when_idle (
      if is_empty told.interactions.entries && same_state told.state waiting_input
      then enter running told
      else told)

-- The listener of `failed`.
abbrev pub hear_failed : String → String → Lease → Lease
hear_failed id reason l = clean_up when_idle (emit (interaction_failed id reason) l)

abbrev pub hear_all_failed : String → List BrokerEntry → Lease → Lease
hear_all_failed reason [] l = l
hear_all_failed reason (e ∷ es) l =
    hear_all_failed reason es (hear_failed e.interaction.id reason l)

unfoldable pub fail_interactions : String → Lease → Lease
unfolding broker_fail_all
fail_interactions reason l =
    hear_all_failed reason l.interactions.entries
      (record l { interactions = broker_fail_all reason l.interactions })

abbrev pub refuse : Bool → ServerRequest → Lease → Lease
refuse rejects r l =
    if rejects
    then record l {
      interactions =
          call_back r (error "Unsupported or invalid interactive request") l.interactions;
    }
    else l

abbrev pub asked :
    Bool → ServerRequest → Option String → Lease → Broker × Outcome Interaction → Lease
asked rejects r owner l (b, returned i) = hear_created i.id (record l { interactions = b })
asked rejects r owner l (b, thrown e) =
    let left = record l { interactions = b } in
    if is_text l.thread_id owner then refuse rejects r left else left

-- `#serverRequest`; the thread of a request may stand in its field `thread`, and the request's own `reject` may throw.
unfoldable pub server_request : Bool → ServerRequest → Option String → Lease → Lease
unfolding broker_add request_thread_id
server_request rejects r nested l =
    asked rejects r
      (request_thread_id (elim r.params [ none ↦ none | some p ↦ p.thread_id ]) nested) l
      (broker_add r l.thread_id l.interactions)

unfoldable pub client_closed : Lease → Lease
unfolding fail_interactions
client_closed l =
    if l.closed
    then l
    else clean_up at_once (
        emit (lease_failed "app-server-client-closed")
          (fail_interactions "app-server-client-closed" (enter failed l)))

unfoldable pub close : String → Lease → Lease
unfolding fail_interactions
close reason l = if l.closed then l else fail_interactions reason (record l { closed = true })
