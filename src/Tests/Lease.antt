-- ===== src/Tests/Lease.antt =====
-- Leases of threads that are held, disposed of and limited, and turns that end; and the theorems on them.
use codex_everywhere.Prelude.{◌≡◌, refl, true, false, List, [], ◌∷◌, none, some, text_discrete}
use codex_everywhere.Table.{find, update, put, delete}
use codex_everywhere.Lease.Counts.{add_count, release_count}
use codex_everywhere.Lease.Turns.{
  Terminal, terminal_turn_status, observe_terminal_turn, complete_turn, new_turns,
}
use codex_everywhere.Lease.Turns.Steps.{
  Step as TurnStep, observes_start, observes, completes, releases, releases_start, run as run_turns,
}
use codex_everywhere.Lease.Turns.Due.{is_due}
use codex_everywhere.Lease.Turns.Covered.{run-is_due}
use codex_everywhere.Lease.Turns.Retained.{run-terminal_turn_status}
use codex_everywhere.Lease.Thread.{effect, viewer}
use codex_everywhere.Lease.Thread.Events.{Notification}
use codex_everywhere.Lease.Thread.Handles
use codex_everywhere.Lease.Manager.{Creation, Manager}
use codex_everywhere.Lease.Manager.Steps

abbrev ending : List TurnStep
ending =
    observes_start ∷ observes "a" ∷ completes "a" "completed" ∷ releases "a" ∷ releases_start ∷ []

abbrev ended : Terminal
ended = record { turn_id = "a"; status = "completed"; pending_start_response = false; serial = 0 }

run-is_due_example : is_due (run_turns ending new_turns) ended ≡ true
unfolding run_turns new_turns find update put delete add_count release_count text_discrete
run-is_due_example = run-is_due ending "a" ended refl

run-terminal_turn_status_example :
    terminal_turn_status "a" (
      run_turns
        (completes "b" "failed" ∷ releases "b" ∷ [])
        (complete_turn "a" "completed" (observe_terminal_turn "a" new_turns)))
    ≡ some "completed"
unfolding text_discrete
run-terminal_turn_status_example =
    run-terminal_turn_status "a" "completed" (completes "b" "failed" ∷ releases "b" ∷ []) new_turns
      (refl, (refl, tt))

abbrev idle_again : Notification
idle_again = record {
  method = "turn/completed";
  thread_id = some "th";
  nested_thread_id = none;
  valid = true;
  is_known = true;
  turn_id = some "a";
  turn_status = some "completed";
  status_type = none;
  usage = none;
}

abbrev holding : List Handles.Step
holding =
    Handles.attaches none viewer "page"
    ∷ Handles.attaches none effect "title"
    ∷ Handles.notifies idle_again
    ∷ Handles.releases 0
    ∷ Handles.releases 0
    ∷ Handles.cleans true
    ∷ []

abbrev title_handle : Handles.Handle
title_handle = record { number = 1; kind = effect; id = "title"; released = false }

abbrev one_client : Manager
one_client = record {
  leases = [];
  creating = [];
  disposing = [];
  starting = [];
  is_closed = false;
  maximum_leases = 1;
  next_number = 0;
}

abbrev asking : List Steps.Step
asking = Steps.starts ∷ Steps.acquires "a" ∷ Steps.initializes true "b" 0 ∷ Steps.acquires "a" ∷ []

abbrev creating_one : Creation
creating_one = record { thread_id = "a"; number = 0; is_awaiting = true }
