-- ===== src/Lease/Turns.antt =====
-- What a `ThreadLease` of apps/agent/src/v2/services/thread-lease-manager.ts keeps of turns that have ended:
-- `observeTerminalTurn`, `observeTurnStartResponse`, `noteTurnStarted`, the end of a turn and
-- `#scheduleTerminalTurnCleanup`. A kept turn is an object that its timer compares with `===`: here
-- it has a number.
pub mod Steps
pub mod Due
pub mod Covered
pub mod Retained
use codex_everywhere.Prelude.{
  ℕ, suc, ◌+◌, ◌-◌, Bool, true, false, ◌&&◌, ◌||◌, not, List, [], ◌∷◌, Option, none, some, String,
  same, ltb, leb, ◌==◌, if◌then◌else◌,
}
use codex_everywhere.Table.{find, update, delete, at, lookup, put}
use codex_everywhere.Lease.Counts.{Count, count_of, add_count, release_count}

pub record Terminal : Type 0 where
  pub turn_id : String
  pub status : String
  pub pending_start_response : Bool
  pub serial : ℕ

pub record Timer : Type 0 where
  pub turn_id : String
  pub serial : ℕ

pub record Turns : Type 0 where
  pub terminals : List Terminal
  pub observers : List Count
  pub start_observers : ℕ
  pub timers : List Timer
  pub next_serial : ℕ

unfoldable pub new_turns : Turns
new_turns = record {
  terminals = [];
  observers = [];
  start_observers = 0;
  timers = [];
  next_serial = 0;
}

abbrev pub terminal_key : Terminal → String
terminal_key t = t.turn_id

abbrev pub status_in : Option Terminal → Option String
status_in none = none
status_in (some t) = some t.status

-- `terminalTurnStatus`.
unfoldable pub terminal_turn_status : String → Turns → Option String
terminal_turn_status id s = status_in (lookup terminal_key id s.terminals)

abbrev pub is_observed : String → Turns → Bool
is_observed id s = ltb 0 (count_of id s.observers)

abbrev pub schedule_found : Option Terminal → Turns → Turns
schedule_found none s = s
schedule_found (some t) s =
    if t.pending_start_response || is_observed t.turn_id s
    then s
    else record s { timers = record { turn_id = t.turn_id; serial = t.serial } ∷ s.timers }

-- `#scheduleTerminalTurnCleanup`, in a scope that is open.
unfoldable pub schedule : String → Turns → Turns
schedule id s = schedule_found (lookup terminal_key id s.terminals) s

unfoldable pub observe_terminal_turn : String → Turns → Turns
unfolding add_count
observe_terminal_turn id s = record s { observers = add_count id s.observers }

-- What the function that `observeTerminalTurn` gives does when it is first called.
unfoldable pub release_terminal_turn : String → Turns → Turns
unfolding release_count schedule
release_terminal_turn id s = schedule id (record s { observers = release_count id s.observers })

unfoldable pub observe_turn_start_response : Turns → Turns
observe_turn_start_response s = record s { start_observers = s.start_observers + 1 }

abbrev pub settled : Terminal → Terminal
settled t = record t { pending_start_response = false }

-- A kept turn no longer waits for a response, and its cleanup is scheduled: `noteTurnStarted` of a turn
-- that has ended already.
unfoldable pub note_ended : String → Turns → Turns
unfolding schedule
note_ended id s =
    schedule id (record s { terminals = update (at terminal_key id) settled s.terminals })

-- The loop over the kept turns: those with a pending response are settled, and their cleanup scheduled.
unfoldable pub settle_each : List Terminal → Turns → Turns
unfolding note_ended
settle_each [] s = s
settle_each (t ∷ ts) s =
    settle_each ts (if t.pending_start_response then note_ended t.turn_id s else s)

-- What the function that `observeTurnStartResponse` gives does when it is first called.
unfoldable pub release_turn_start_response : Turns → Turns
unfolding settle_each
release_turn_start_response s =
    let released = record s { start_observers = s.start_observers - 1 } in
    if released.start_observers == 0 then settle_each s.terminals released else released

abbrev pub is_pending : Turns → Bool
is_pending s = ltb 0 s.start_observers

-- A turn has ended with a status.
unfoldable pub complete_turn : String → String → Turns → Turns
complete_turn id status s =
    if is_pending s || is_observed id s
    then record s {
      terminals =
          put terminal_key
            (record {
              turn_id = id;
              status = status;
              pending_start_response = is_pending s;
              serial = s.next_serial;
            })
            s.terminals;
      next_serial = suc s.next_serial;
    }
    else s

abbrev pub is_timer : Timer → Timer → Bool
is_timer a b = same a.turn_id b.turn_id && a.serial == b.serial

-- A timer fires once.
unfoldable pub remove_timer : Timer → List Timer → List Timer
remove_timer t [] = []
remove_timer t (x ∷ xs) = let rest = remove_timer t xs in if is_timer t x then xs else x ∷ rest

abbrev pub without_timer : Timer → Turns → Turns
without_timer t s = record s { timers = remove_timer t s.timers }

abbrev pub fire_found : ℕ → Option Terminal → Turns → Turns
fire_found serial none s = s
fire_found serial (some t) s =
    if t.serial == serial && (not t.pending_start_response && not (is_observed t.turn_id s))
    then record s { terminals = delete (at terminal_key t.turn_id) s.terminals }
    else s

-- The timer of a cleanup.
unfoldable pub fire : Timer → Turns → Turns
unfolding remove_timer
fire t s = fire_found t.serial (lookup terminal_key t.turn_id s.terminals) (without_timer t s)
