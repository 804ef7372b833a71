-- ===== src/Web/TaskList/Notified.antt =====
-- The state changes that apps/web/src/v4/actors/task-list-actor.ts hears of while it awaits a page.
use codex_everywhere.Prelude.{
  ◌≤◌, ◌≡◌, refl, Bool, true, false, List, [], ◌∷◌, Option, none, some, String, same, same_iff,
  same_refl, if◌then◌else◌, All, arith,
}
use codex_everywhere.Table.{find, modified, at, lookup}
use codex_everywhere.Table.Maps.{lookup-put, modified-put_key}
use codex_everywhere.Web.TaskList.{
  TaskListState, Task, Change, Page, Effect, initial_state, task_key, change_key, is_same_scope,
  reduce_load, reduce_more, reduce_loaded, merge_tasks, reduce_changed, reduce_task_list,
  replace_task_state, apply_pending_state_changes, Answer, answers, throws, run_effect,
}
use codex_everywhere.Web.TaskList.Flight.{
  Flight, Step, asks, asks_more, notified, answered, answer_to, step, run, start, IsAskedIn,
  step-IsAsked, run-IsAsked, start-IsAsked,
}

-- A list without the task shows nothing of it.
abbrev pub is_shown : String → Option Task → Bool
is_shown state none = true
is_shown state (some t) = same t.state state

lookup-replace :
    (k id state : String) (ts : List Task)
    → (if same id k
        then is_shown state (lookup task_key k (replace_task_state ts id state)) ≡ true
        else lookup task_key k (replace_task_state ts id state) ≡ lookup task_key k ts)
unfolding find replace_task_state
lookup-replace k id state [] = ground arith
lookup-replace k id state (t ∷ ts) =
    ground (arith, lookup-replace k id state ts, same_iff id k, same_iff t.id id, same_refl state)

apply-none :
    (k : String) (ts : List Task) (cs : List Change)
    → modified (at change_key k) cs ≡ 0
    → lookup task_key k (apply_pending_state_changes ts cs) ≡ lookup task_key k ts
unfolding apply_pending_state_changes modified
apply-none k ts [] e = refl
apply-none k ts (c ∷ cs) e = ground (
  arith,
  e,
  apply-none k (replace_task_state ts c.id c.state) cs,
  lookup-replace k c.id c.state ts,
)

apply-shown :
    (k : String) (c : Change) (ts : List Task) (cs : List Change)
    → modified (at change_key k) cs ≤ 1
    → lookup change_key k cs ≡ some c
    → is_shown c.state (lookup task_key k (apply_pending_state_changes ts cs)) ≡ true
unfolding apply_pending_state_changes modified find
apply-shown k c ts [] o e = absurd (cc)
apply-shown k c ts (x ∷ xs) o e = ground (
  arith,
  o,
  e,
  apply-none k (replace_task_state ts x.id x.state) xs,
  apply-shown k c (replace_task_state ts x.id x.state) xs,
  lookup-replace k x.id x.state ts,
)

-- One change of a thread is kept at most.
abbrev pub IsKeyed : String → Flight → Type 0
IsKeyed k f = modified (at change_key k) f.actor.pending_state_changes ≤ 1

answer-IsKeyed :
    (k : String) (a : Answer) (e : Option Effect) (s : TaskListState)
    → modified (at change_key k) s.pending_state_changes ≤ 1
    → IsKeyed k (answer_to a e s)
unfolding run_effect reduce_task_list reduce_loaded modified
answer-IsKeyed k a none s h = h
answer-IsKeyed k (answers page) (some e) s h = omega arith
answer-IsKeyed k (throws m) (some e) s h = ground (arith, h)

more-IsKeyed :
    (k : String) (c : Option String) (s : TaskListState)
    → modified (at change_key k) s.pending_state_changes ≤ 1
    → modified (at change_key k) (reduce_more c s).state.pending_state_changes ≤ 1
more-IsKeyed k none s h = h
more-IsKeyed k (some c) s h = ground (arith, h)

step-IsKeyed : (k : String) (e : Step) (f : Flight) → IsKeyed k f → IsKeyed k (step e f)
unfolding step reduce_task_list reduce_load reduce_changed modified
step-IsKeyed k (asks w l a) f h = ground (arith, h)
step-IsKeyed k asks_more f h = more-IsKeyed k f.actor.next_cursor f.actor h
step-IsKeyed k (notified id state) f h = ground (
  arith,
  h,
  modified-put_key change_key k (record { id = id; state = state }) f.actor.pending_state_changes,
)
step-IsKeyed k (answered a) f h = answer-IsKeyed k a f.effect f.actor h

run-IsKeyed : (k : String) (es : List Step) (f : Flight) → IsKeyed k f → IsKeyed k (run es f)
unfolding run
run-IsKeyed k [] f h = h
run-IsKeyed k (e ∷ es) f h = run-IsKeyed k es (step e f) (step-IsKeyed k e f h)

start-IsKeyed : (k : String) → IsKeyed k start
unfolding start initial_state modified
start-IsKeyed k = omega arith

abbrev pub state_in : Option Change → Option String
state_in none = none
state_in (some c) = some c.state

abbrev pub given : Option Bool → Bool
given none = false
given (some a) = a

module _ (k state : String) (shown : TaskListState) where
  -- While the page is awaited: the list stays, and the thread does not change again.
  abbrev pub Waits : Step → Type 0
  Waits (asks workspace label archived) = is_same_scope workspace (given archived) shown ≡ true
  Waits asks_more = Unit
  Waits (notified id other) = same id k ≡ false
  Waits (answered a) = false ≡ true

  record IsNoted (s : TaskListState) : Type 0 where
    pub busy : s.request_in_flight ≡ true
    pub noted : state_in (lookup change_key k s.pending_state_changes) ≡ some state
    pub same_archived : s.archived ≡ shown.archived
    pub same_list : s.workspace_id ≡ shown.workspace_id

  more-IsNoted :
      (c : Option String) (s : TaskListState) → IsNoted s → IsNoted (reduce_more c s).state
  more-IsNoted none s h = h
  more-IsNoted (some c) s h = ground (arith, h)

  step-IsNoted : (e : Step) (f : Flight) → Waits e → IsNoted f.actor → IsNoted (step e f).actor
  unfolding step reduce_task_list reduce_load reduce_changed
  step-IsNoted (asks w l none) f e h = ground (arith, e, h)
  step-IsNoted (asks w l (some a)) f e h = ground (arith, e, h)
  step-IsNoted asks_more f e h = more-IsNoted f.actor.next_cursor f.actor h
  step-IsNoted (notified id other) f e h = ground (
    arith,
    e,
    h,
    lookup-put change_key k (record { id = id; state = other }) f.actor.pending_state_changes,
  )
  step-IsNoted (answered a) f e h = absurd (cc)

  run-IsNoted :
      (es : List Step) (f : Flight) → All Waits es → IsNoted f.actor → IsNoted (run es f).actor
  unfolding run
  run-IsNoted [] f a h = h
  run-IsNoted (e ∷ es) f a h = run-IsNoted es (step e f) a.1 (step-IsNoted e f a.0 h)

  -- The page comes.
  answered-is_shown :
      (page : Page) (f : Flight)
      → IsAskedIn f
      → IsKeyed k f
      → IsNoted f.actor
      → is_shown state (lookup task_key k (step (answered (answers page)) f).actor.tasks) ≡ true
  unfolding step run_effect reduce_task_list reduce_loaded
  answered-is_shown page f a u h =
      go f.effect refl (lookup change_key k f.actor.pending_state_changes) refl
    where
      stated :
          (c : Change)
          → lookup change_key k f.actor.pending_state_changes ≡ some c
          → c.state ≡ state
      stated c j = ground (arith, j, h.noted)

      go :
          (e : Option Effect)
          → f.effect ≡ e
          → (c : Option Change) → lookup change_key k f.actor.pending_state_changes ≡ c
          → is_shown state (lookup task_key k (answer_to (answers page) e f.actor).actor.tasks)
            ≡ true
      go none i c j = ground (arith, i, a.asked, h.busy)
      go (some e) i none j = ground (arith, j, h.noted)
      go (some e) i (some c) j = rw⁻¹ (stated c j) (
          apply-shown k c
            (if e.append then merge_tasks f.actor.tasks page.threads else page.threads)
            f.actor.pending_state_changes u j)

notified-IsNoted :
    (k state : String) (f : Flight)
    → f.actor.request_in_flight ≡ true
    → IsNoted k state f.actor (step (notified k state) f).actor
unfolding step reduce_task_list reduce_changed
notified-IsNoted k state f b = ground (
  arith,
  b,
  same_refl k,
  lookup-put change_key k (record { id = k; state = state }) f.actor.pending_state_changes,
)

-- A thread's state that is reported while a page is awaited is what the page shows of the thread when it comes, however
-- old the page's own state of it is, where the list stays the same and the thread's state is not reported again.
pub run-is_shown :
    (before es : List Step) (k state : String) (page : Page)
    → (run before start).actor.request_in_flight ≡ true
    → All (Waits k state (run before start).actor) es
    → is_shown state (
        lookup task_key k
          (step
            (answered (answers page))
            (run es (step (notified k state) (run before start)))).actor.tasks)
      ≡ true
run-is_shown before es k state page busy waits =
    answered-is_shown k state f.actor page (run es g)
      (run-IsAsked es g
        (step-IsAsked (notified k state) f (run-IsAsked before start start-IsAsked)))
      (run-IsKeyed k es g
        (step-IsKeyed k (notified k state) f (run-IsKeyed k before start (start-IsKeyed k))))
      (run-IsNoted k state f.actor es g waits (notified-IsNoted k state f busy))
  where
    f : Flight
    f = run before start

    g : Flight
    g = step (notified k state) f
