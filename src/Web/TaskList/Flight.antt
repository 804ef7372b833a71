-- ===== src/Web/TaskList/Flight.antt =====
-- The task list of apps/web/src/v4/actors/task-list-actor.ts and the request that is in flight.
use codex_everywhere.Prelude.{
  ◌≡◌, refl, Bool, true, false, ◌||◌, not, List, [], ◌∷◌, Option, none, some, String, same_refl,
  if◌then◌else◌, Bool-cases, inl, inr, arith,
}
use codex_everywhere.Web.TaskList.{
  TaskListState, Page, Event, load, more, thread_state_changed, Effect, Move, initial_state,
  refresh_effect, is_same_scope, same_workspace, same_bool, reduce_load, reduce_more, reduce_loaded,
  reduce_changed, reduce_failed, reduce_task_list, Answer, answers, throws, run_effect,
}

pub record Flight : Type 0 where
  pub actor : TaskListState
  pub effect : Option Effect

-- A page or notification event, or the answer to the request in flight.
pub data Step : Type 0 where
  asks : Option String → Option String → Option Bool → Step
  asks_more : Step
  notified : String → String → Step
  answered : Answer → Step

-- The effects that a transition starts take the place of those in flight, unless these are preserved.
abbrev pub in_flight : List Effect → Bool → Option Effect → Option Effect
in_flight (e ∷ es) preserve old = some e
in_flight [] preserve old = if preserve then old else none

abbrev pub moved : Move → Option Effect → Flight
moved m old = record { actor = m.state; effect = in_flight m.effects m.preserve_effects old }

abbrev pub dispatched : Option Event → TaskListState → Flight
dispatched none s = record { actor = s; effect = none }
dispatched (some e) s = moved (reduce_task_list s e) none

-- The effect that is current has not been aborted.
abbrev pub answer_to : Answer → Option Effect → TaskListState → Flight
answer_to a none s = record { actor = s; effect = none }
answer_to a (some e) s = dispatched (run_effect e false a) s

unfoldable pub step : Step → Flight → Flight
unfolding reduce_task_list run_effect
step (asks workspace label archived) f =
    moved (reduce_task_list f.actor (load workspace label archived)) f.effect
step asks_more f = moved (reduce_task_list f.actor more) f.effect
step (notified id state) f =
    moved (reduce_task_list f.actor (thread_state_changed id state)) f.effect
step (answered a) f = answer_to a f.effect f.actor

unfoldable pub run : List Step → Flight → Flight
unfolding step
run [] f = f
run (e ∷ es) f = run es (step e f)

unfoldable pub start : Flight
unfolding initial_state
start = record { actor = initial_state; effect = none }

abbrev pub is_asking : Option Effect → Bool
is_asking none = false
is_asking (some e) = true

-- The list that the request in flight is for is the one that is shown.
abbrev pub asks_for : TaskListState → Option Effect → Bool
asks_for s none = true
asks_for s (some e) = is_same_scope e.workspace_id e.archived s

pub record IsAsked (s : TaskListState) (e : Option Effect) : Type 0 where
  pub asked : s.request_in_flight ≡ is_asking e
  pub again : (not s.refresh_pending || s.request_in_flight) ≡ true
  pub matching : asks_for s e ≡ true

same_workspace-same : (w : Option String) → same_workspace w w ≡ true
same_workspace-same none = refl
same_workspace-same (some t) = same_refl t

same_bool-same : (b : Bool) → same_bool b b ≡ true
same_bool-same true = refl
same_bool-same false = refl

refresh-matching :
    (s : TaskListState)
    → is_same_scope (refresh_effect s).workspace_id (refresh_effect s).archived s ≡ true
unfolding refresh_effect
refresh-matching s = ground (arith, same_bool-same s.archived, same_workspace-same s.workspace_id)

abbrev IsMoved : Option Effect → Move → Type 0
IsMoved old m = IsAsked m.state (in_flight m.effects m.preserve_effects old)

load-IsAsked :
    (workspace label : Option String) (archived : Bool) (s : TaskListState) (e : Option Effect)
    → IsAsked s e
    → IsMoved e (reduce_load workspace label archived s)
unfolding reduce_load initial_state
load-IsAsked workspace label archived s e h =
    ground (arith, h, same_bool-same archived, same_workspace-same workspace)

more-IsAsked :
    (c : Option String) (s : TaskListState) (e : Option Effect)
    → IsAsked s e
    → IsMoved e (reduce_more c s)
more-IsAsked none s e h = h
more-IsAsked (some c) s e h = elim (Bool-cases (s.request_in_flight || not s.has_more)) [
  | inl refused ↦ rw refused h
  | inr free ↦ rw free (record {
    asked = refl;
    again = ground arith;
    matching = ground (arith, same_bool-same s.archived, same_workspace-same s.workspace_id);
  })
]

loaded-IsAsked :
    (page : Page) (append : Bool) (s : TaskListState) → IsMoved none (reduce_loaded page append s)
unfolding reduce_loaded
loaded-IsAsked page append s = ground (arith, refresh-matching s)

changed-IsAsked :
    (id state : String) (s : TaskListState) (e : Option Effect)
    → IsAsked s e
    → IsMoved e (reduce_changed id state s)
unfolding reduce_changed
changed-IsAsked id state s e h = ground (arith, h)

failed-IsAsked : (m : String) (s : TaskListState) → IsMoved none (reduce_failed m s)
failed-IsAsked m s = ground (arith, refresh-matching s)

abbrev pub IsAskedIn : Flight → Type 0
IsAskedIn f = IsAsked f.actor f.effect

answer-IsAsked :
    (a : Answer) (s : TaskListState) (e : Option Effect) → IsAsked s e → IsAskedIn (answer_to a e s)
unfolding run_effect reduce_task_list
answer-IsAsked a s none h = h
answer-IsAsked (answers page) s (some e) h = loaded-IsAsked page e.append s
answer-IsAsked (throws m) s (some e) h = failed-IsAsked m s

pub step-IsAsked : (e : Step) (f : Flight) → IsAskedIn f → IsAskedIn (step e f)
unfolding step reduce_task_list
step-IsAsked (asks w l none) f h = load-IsAsked w l false f.actor f.effect h
step-IsAsked (asks w l (some a)) f h = load-IsAsked w l a f.actor f.effect h
step-IsAsked asks_more f h = more-IsAsked f.actor.next_cursor f.actor f.effect h
step-IsAsked (notified id state) f h = changed-IsAsked id state f.actor f.effect h
step-IsAsked (answered a) f h = answer-IsAsked a f.actor f.effect h

pub run-IsAsked : (es : List Step) (f : Flight) → IsAskedIn f → IsAskedIn (run es f)
unfolding run
run-IsAsked [] f h = h
run-IsAsked (e ∷ es) f h = run-IsAsked es (step e f) (step-IsAsked e f h)

pub start-IsAsked : IsAskedIn start
unfolding start initial_state
start-IsAsked = record { asked = refl; again = refl; matching = refl }

-- From the start, the list says that a request is in flight just when one is, and that one is for the list that is
-- shown: no answer for another list comes into it.
pub run-asks_for :
    (es : List Step)
    → let f = run es start in
      (f.actor.request_in_flight ≡ is_asking f.effect) × (asks_for f.actor f.effect ≡ true)
run-asks_for es = let h = run-IsAsked es start start-IsAsked in (h.asked, h.matching)
