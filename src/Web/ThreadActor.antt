-- ===== src/Web/ThreadActor.antt =====
-- `createThreadActor` of apps/web/src/v4/actors/thread-actor.ts: the reducer, with `applyGatewayEvent`.
-- The payload of a Gateway event has passed its schema, and the item of a generic event comes with its
-- identifier `gateway:<event ID>` and its time.
pub mod Effects
pub mod Refresh
pub mod Distinct
use codex_everywhere.Prelude.{
  ℕ, Bool, true, false, ◌&&◌, ◌||◌, not, List, [], ◌∷◌, ◌++◌, Option, none, some, String, same, ltb,
  if◌then◌else◌,
}
use codex_everywhere.Kernel.Actor.{Transition}
use codex_everywhere.Web.Timeline.{
  Item, ThreadState, Settings, Interaction, Snapshot, HistoryPage, has, ids, keep, is_nil,
  merge_timeline_pages, prepend_authoritative_history_page, replace_authoritative_timeline_window,
  merge_authoritative_timeline_window,
}

pub data Status : Type 0 where
  closed opening reconnecting : Status
  shows : ThreadState → Status

pub data HistoryStatus : Type 0 where
  resting loading broken : HistoryStatus

pub record ThreadActorState : Type 0 where
  pub status : Status
  pub thread_id : Option String
  pub snapshot : Option Snapshot
  pub context_usage : Option String
  pub context_usage_changed_during_open : Bool
  pub loaded_history_item_ids : List String
  pub refreshing : Bool
  pub history_status : HistoryStatus
  pub history_error : Option String
  pub refresh_pending : Bool
  pub replace_history_on_refresh : Bool
  pub error : Option String

pub data GatewayEvent : Type 0 where
  context_usage_changed : String → String → GatewayEvent
  state_changed : String → ThreadState → GatewayEvent
  compacted : String → GatewayEvent
  interaction_created : Interaction → GatewayEvent
  generic : String → Item → GatewayEvent
  interaction_ended : String → String → GatewayEvent
  lease_failed : String → String → GatewayEvent
  other_event : GatewayEvent

pub data Event : Type 0 where
  open_thread : String → Event
  opened : Snapshot → Event
  settings_updated : String → Settings → Event
  load_earlier : Event
  history_loaded : HistoryPage → Event
  history_failed : String → Event
  gateway_event : GatewayEvent → Event
  reconnects : Event
  close : Event
  failed : String → Event

pub data Effect : Type 0 where
  fetch : String → Option String → Effect
  history : String → String → Effect
  close_thread : Option String → Effect

abbrev pub Move : Type 0
Move = Transition ThreadActorState Effect

abbrev pub quietly : ThreadActorState → Move
quietly s = record { state = s; effects = []; preserve_effects = true }

abbrev pub only : ThreadActorState → Move
only s = record { state = s; effects = []; preserve_effects = false }

abbrev pub starting : ThreadActorState → Effect → Move
starting s e = record { state = s; effects = e ∷ []; preserve_effects = false }

abbrev pub empty_state : Status → Option String → ThreadActorState
empty_state status thread = record {
  status = status;
  thread_id = thread;
  snapshot = none;
  context_usage = none;
  context_usage_changed_during_open = false;
  loaded_history_item_ids = [];
  refreshing = false;
  history_status = resting;
  history_error = none;
  refresh_pending = false;
  replace_history_on_refresh = false;
  error = none;
}

abbrev pub is_text : String → Option String → Bool
is_text t none = false
is_text t (some u) = same u t

abbrev pub is_loading : HistoryStatus → Bool
is_loading loading = true
is_loading _ = false

abbrev pub other_thread : String → Option String → Option String
other_thread t none = none
other_thread t (some u) = if same u t then none else some u

abbrev pub open_shown : String → ThreadActorState → Move
open_shown t s =
    if is_loading s.history_status
    then quietly (record s { refreshing = true; refresh_pending = true })
    else if s.refreshing
    then quietly (record s { refresh_pending = true })
    else starting (record s { refreshing = true; context_usage_changed_during_open = false })
        (fetch t none)

abbrev pub open_new : String → ThreadActorState → Move
open_new t s = starting (empty_state opening (some t)) (fetch t (other_thread t s.thread_id))

abbrev pub reduce_open : String → Option Snapshot → ThreadActorState → Move
reduce_open t none s = open_new t s
reduce_open t (some shown) s = if is_text t s.thread_id then open_shown t s else open_new t s

-- `appendNewHistoryIds`: a Set keeps the first of equal texts.
unfoldable pub unique : List String → List String → List String
unfolding has
unique seen [] = []
unique seen (x ∷ xs) =
    let first = x ∷ unique (x ∷ seen) xs in
    let again = unique seen xs in if has x seen then again else first

unfoldable pub append_new_history_ids : List String → Snapshot → HistoryPage → List String
unfolding unique ids
append_new_history_ids loaded current page =
    if is_nil page.items
    then loaded
    else unique [] (loaded ++ (ids page.items ++ ids current.items))

unfoldable pub retain_present_ids : List String → Snapshot → List String
unfolding has ids
retain_present_ids loaded s = keep (λ (k : String). has k (ids s.items)) loaded

abbrev pub usage_after : Option String → Bool → Option String → Option String
usage_after (some u) kept old = some u
usage_after none kept old = if kept then old else none

abbrev pub opened_snapshot : Snapshot → ThreadActorState → Snapshot
opened_snapshot a s =
    if s.replace_history_on_refresh
    then replace_authoritative_timeline_window s.snapshot a
    else merge_authoritative_timeline_window s.snapshot a s.loaded_history_item_ids

abbrev pub opened_state : Snapshot → ThreadActorState → ThreadActorState
opened_state a s = record {
  status = shows a.state;
  thread_id = some a.thread_id;
  snapshot = some (opened_snapshot a s);
  context_usage =
      usage_after a.context_usage
        (s.context_usage_changed_during_open && is_text a.thread_id s.thread_id) s.context_usage;
  context_usage_changed_during_open = false;
  loaded_history_item_ids =
      if s.replace_history_on_refresh
      then []
      else retain_present_ids s.loaded_history_item_ids (opened_snapshot a s);
  refreshing = s.refresh_pending;
  history_status = s.history_status;
  history_error = none;
  refresh_pending = false;
  replace_history_on_refresh = s.replace_history_on_refresh && s.refresh_pending;
  error = none;
}

unfoldable pub reduce_opened : Snapshot → ThreadActorState → Move
unfolding replace_authoritative_timeline_window merge_authoritative_timeline_window
    retain_present_ids
reduce_opened a s =
    if s.refresh_pending
    then starting (opened_state a s) (fetch a.thread_id none)
    else only (opened_state a s)

abbrev pub reduce_settings : String → Settings → Option Snapshot → ThreadActorState → Move
reduce_settings t settings none s = quietly s
reduce_settings t settings (some shown) s =
    if not (is_text t s.thread_id) || ltb settings.revision shown.settings.revision
    then quietly s
    else quietly (record s { snapshot = some (record shown { settings = settings }) })

abbrev pub load_from : Option String → Option String → Bool → ThreadActorState → Move
load_from (some t) (some cursor) true s =
    starting (record s { history_status = loading; history_error = none }) (history t cursor)
load_from _ _ _ s = quietly s

abbrev pub reduce_load_earlier : Option Snapshot → ThreadActorState → Move
reduce_load_earlier none s = quietly s
reduce_load_earlier (some shown) s =
    if s.refreshing || is_loading s.history_status
    then quietly s
    else load_from s.thread_id shown.history_cursor shown.has_earlier_history s

-- A refresh that was asked for while the history was loading follows it.
abbrev pub then_refresh : Bool → Option String → ThreadActorState → Move
then_refresh true (some t) s =
    starting (record s { refreshing = true; context_usage_changed_during_open = false })
      (fetch t none)
then_refresh _ _ s = only s

abbrev pub reduce_history : HistoryPage → Option Snapshot → ThreadActorState → Move
reduce_history page none s = quietly s
reduce_history page (some shown) s = then_refresh s.refresh_pending s.thread_id (record s {
  snapshot = some (prepend_authoritative_history_page shown page);
  loaded_history_item_ids = append_new_history_ids s.loaded_history_item_ids shown page;
  history_status = resting;
  history_error = none;
  refresh_pending = false;
})

abbrev pub is_opening : Status → Bool
is_opening opening = true
is_opening _ = false

abbrev pub is_other_interaction : String → Interaction → Bool
is_other_interaction id i = not (same i.id id)

abbrev pub apply_shown : GatewayEvent → String → Snapshot → ThreadActorState → ThreadActorState
apply_shown (state_changed t state) thread shown s =
    if same t thread
    then record s { status = shows state; snapshot = some (record shown { state = state }) }
    else s
apply_shown (compacted t) thread shown s =
    if same t thread then record s { replace_history_on_refresh = true } else s
apply_shown (interaction_created i) thread shown s =
    if same i.thread_id thread
    then record s {
      status = shows ThreadState.waiting_input;
      snapshot = some (record shown {
        interactions = keep (is_other_interaction i.id) shown.interactions ++ i ∷ [];
      });
    }
    else s
apply_shown (generic t item) thread shown s =
    if same t thread
    then record s {
      snapshot = some (record shown { items = merge_timeline_pages shown.items (item ∷ []) });
    }
    else s
apply_shown (interaction_ended t id) thread shown s =
    if same t thread
    then record s {
      snapshot =
          some (record shown { interactions = keep (is_other_interaction id) shown.interactions });
    }
    else s
apply_shown (lease_failed t reason) thread shown s =
    if same t thread
    then record s {
      context_usage = none;
      status = shows ThreadState.failed;
      refreshing = false;
      context_usage_changed_during_open = false;
      error = some reason;
    }
    else s
apply_shown _ thread shown s = s

abbrev pub apply_to :
    GatewayEvent → Option String → Option Snapshot → ThreadActorState → ThreadActorState
apply_to e none shown s = s
apply_to (context_usage_changed t usage) (some thread) shown s =
    if same t thread
    then record s {
      context_usage = some usage;
      context_usage_changed_during_open = is_opening s.status || s.refreshing;
    }
    else s
apply_to e (some thread) none s = s
apply_to e (some thread) (some shown) s = apply_shown e thread shown s

unfoldable pub apply_gateway_event : ThreadActorState → GatewayEvent → ThreadActorState
unfolding merge_timeline_pages
apply_gateway_event s e = apply_to e s.thread_id s.snapshot s

unfoldable pub reduce_thread : ThreadActorState → Event → Move
unfolding reduce_opened prepend_authoritative_history_page append_new_history_ids
    apply_gateway_event
reduce_thread s (open_thread t) = reduce_open t s.snapshot s
reduce_thread s (opened a) = reduce_opened a s
reduce_thread s (settings_updated t settings) = reduce_settings t settings s.snapshot s
reduce_thread s load_earlier = reduce_load_earlier s.snapshot s
reduce_thread s (history_loaded page) = reduce_history page s.snapshot s
reduce_thread s (history_failed message) =
    then_refresh s.refresh_pending s.thread_id
      (record s { history_status = broken; history_error = some message; refresh_pending = false })
reduce_thread s (gateway_event e) = quietly (apply_gateway_event s e)
reduce_thread s reconnects = only (record s {
  context_usage = none;
  status = reconnecting;
  refreshing = false;
  history_status = resting;
  refresh_pending = false;
  context_usage_changed_during_open = false;
})
reduce_thread s close = starting (empty_state closed none) (close_thread s.thread_id)
reduce_thread s (failed message) =
    only (record s { status = shows ThreadState.failed; refreshing = false; error = some message })

unfoldable pub initial_thread : ThreadActorState
initial_thread = empty_state closed none
