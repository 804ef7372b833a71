-- ===== src/Web/TaskList.antt =====
-- `createTaskListActor` of apps/web/src/v4/actors/task-list-actor.ts: the reducer and the effect runner. Of a task the
-- model keeps what the actor reads and the text of the rest.
pub mod Flight
pub mod Notified
use codex_everywhere.Prelude.{
  ℕ, Bool, true, false, ◌&&◌, ◌||◌, not, List, [], ◌∷◌, Option, none, some, String, same, leb,
  if◌then◌else◌,
}
use codex_everywhere.Kernel.Actor.{Transition}
use codex_everywhere.Table.{at, lookup, find, put}

pub data Status : Type 0 where
  loading ready paginating failed : Status

pub record Task : Type 0 where
  pub id : String
  pub updated_at : ℕ
  pub state : String
  pub body : String

pub record Change : Type 0 where
  pub id : String
  pub state : String

-- A flag that is not there is `false`.
pub record TaskListState : Type 0 where
  pub status : Status
  pub tasks : List Task
  pub request_in_flight : Bool
  pub refresh_pending : Bool
  pub next_cursor : Option String
  pub has_more : Bool
  pub archived : Bool
  pub workspace_id : Option String
  pub workspace_label : Option String
  pub error : Option String
  pub pending_state_changes : List Change

pub record Page : Type 0 where
  pub threads : List Task
  pub next_cursor : Option String
  pub has_more : Bool

pub data Event : Type 0 where
  load : Option String → Option String → Option Bool → Event
  more : Event
  loaded : Page → Bool → Event
  thread_state_changed : String → String → Event
  fails : String → Event

pub record Effect : Type 0 where
  pub append : Bool
  pub workspace_id : Option String
  pub archived : Bool
  pub cursor : Option String

abbrev pub Move : Type 0
Move = Transition TaskListState Effect

unfoldable pub initial_state : TaskListState
initial_state = record {
  status = loading;
  tasks = [];
  request_in_flight = false;
  refresh_pending = false;
  next_cursor = none;
  has_more = false;
  archived = false;
  workspace_id = none;
  workspace_label = none;
  error = none;
  pending_state_changes = [];
}

abbrev pub task_key : Task → String
task_key t = t.id

abbrev pub change_key : Change → String
change_key c = c.id

unfoldable pub refresh_effect : TaskListState → Effect
refresh_effect s = record {
  append = false;
  workspace_id = s.workspace_id;
  archived = s.archived;
  cursor = none;
}

unfoldable pub set_all : List Task → List Task → List Task
set_all [] by_id = by_id
set_all (t ∷ ts) by_id = set_all ts (put task_key t by_id)

-- The newest first; `sort` is stable.
unfoldable pub insert : Task → List Task → List Task
insert t [] = t ∷ []
insert t (x ∷ xs) =
    let rest = insert t xs in if leb x.updated_at t.updated_at then t ∷ x ∷ xs else x ∷ rest

unfoldable pub sort : List Task → List Task
unfolding insert
sort [] = []
sort (t ∷ ts) = insert t (sort ts)

unfoldable pub merge_tasks : List Task → List Task → List Task
unfolding set_all sort
merge_tasks current next = sort (set_all next (set_all current []))

-- The first task with the identifier.
unfoldable pub replace_task_state : List Task → String → String → List Task
replace_task_state [] id state = []
replace_task_state (t ∷ ts) id state =
    let rest = replace_task_state ts id state in
    if same t.id id then record t { state = state } ∷ ts else t ∷ rest

-- Whether the list that `replaceTaskState` gives is another.
abbrev pub changes : Option Task → String → Bool
changes none state = false
changes (some t) state = not (same t.state state)

unfoldable pub apply_pending_state_changes : List Task → List Change → List Task
unfolding replace_task_state
apply_pending_state_changes tasks [] = tasks
apply_pending_state_changes tasks (c ∷ cs) =
    apply_pending_state_changes (replace_task_state tasks c.id c.state) cs

abbrev pub stay : TaskListState → Move
stay s = record { state = s; effects = []; preserve_effects = true }

abbrev pub same_workspace : Option String → Option String → Bool
same_workspace none none = true
same_workspace (some a) (some b) = same a b
same_workspace _ _ = false

abbrev pub or_else : Option String → Option String → Option String
or_else none other = other
or_else (some t) other = some t

abbrev pub same_bool : Bool → Bool → Bool
same_bool true b = b
same_bool false b = not b

abbrev pub is_same_scope : Option String → Bool → TaskListState → Bool
is_same_scope workspace archived s =
    same_bool s.archived archived && same_workspace s.workspace_id workspace

-- Another list starts empty.
abbrev pub scoped : Option String → Bool → TaskListState → TaskListState
scoped workspace archived s =
    if is_same_scope workspace archived s
    then record s { error = none }
    else record initial_state { archived = archived; workspace_id = workspace }

unfoldable pub reduce_load : Option String → Option String → Bool → TaskListState → Move
unfolding initial_state
reduce_load workspace label archived s =
    if is_same_scope workspace archived s && s.request_in_flight
    then stay (record s { refresh_pending = true })
    else let base = scoped workspace archived s in
      record {
        state = record base {
          status = loading;
          request_in_flight = true;
          refresh_pending = false;
          pending_state_changes = [];
          workspace_label = or_else label base.workspace_label;
        };
        effects =
            record { append = false; workspace_id = workspace; archived = archived; cursor = none }
            ∷ [];
        preserve_effects = false;
      }

abbrev pub reduce_more : Option String → TaskListState → Move
reduce_more none s = stay s
reduce_more (some cursor) s = if s.request_in_flight || not s.has_more then stay s else record {
  state = record s { status = paginating; request_in_flight = true };
  effects =
      record {
        append = true;
        workspace_id = s.workspace_id;
        archived = s.archived;
        cursor = some cursor;
      }
      ∷ [];
  preserve_effects = false;
}

abbrev pub refreshes : Bool → TaskListState → List Effect
refreshes again s = if again then refresh_effect s ∷ [] else []

unfoldable pub reduce_loaded : Page → Bool → TaskListState → Move
unfolding merge_tasks apply_pending_state_changes
reduce_loaded page append s = record {
  state = record s {
    status = if s.refresh_pending then loading else ready;
    tasks =
        apply_pending_state_changes
          (if append then merge_tasks s.tasks page.threads else page.threads)
          s.pending_state_changes;
    request_in_flight = s.refresh_pending;
    refresh_pending = false;
    pending_state_changes = [];
    next_cursor = page.next_cursor;
    has_more = page.has_more;
    error = none;
  };
  effects = refreshes s.refresh_pending s;
  preserve_effects = false;
}

unfoldable pub reduce_changed : String → String → TaskListState → Move
unfolding replace_task_state
reduce_changed id state s = stay (
    if s.request_in_flight
    then record s {
      tasks = replace_task_state s.tasks id state;
      pending_state_changes =
          put change_key (record { id = id; state = state }) s.pending_state_changes;
    }
    else (if changes (lookup task_key id s.tasks) state
        then record s { tasks = replace_task_state s.tasks id state }
        else s))

abbrev pub reduce_failed : String → TaskListState → Move
reduce_failed message s =
    if s.refresh_pending
    then record {
      state = record s {
        status = loading;
        request_in_flight = true;
        refresh_pending = false;
        pending_state_changes = [];
      };
      effects = refreshes true s;
      preserve_effects = false;
    }
    else record {
      state = record s {
        status = failed;
        request_in_flight = false;
        refresh_pending = false;
        error = some message;
        pending_state_changes = [];
      };
      effects = [];
      preserve_effects = false;
    }

unfoldable pub reduce_task_list : TaskListState → Event → Move
unfolding reduce_load reduce_loaded reduce_changed
reduce_task_list s (load workspace label archived) =
    reduce_load workspace label (elim archived [ none ↦ false | some a ↦ a ]) s
reduce_task_list s more = reduce_more s.next_cursor s
reduce_task_list s (loaded page append) = reduce_loaded page append s
reduce_task_list s (thread_state_changed id state) = reduce_changed id state s
reduce_task_list s (fails message) = reduce_failed message s

pub data Answer : Type 0 where
  answers : Page → Answer
  throws : String → Answer

-- What the effect dispatches, by whether its signal is aborted.
unfoldable pub run_effect : Effect → Bool → Answer → Option Event
run_effect e aborted (answers page) = some (loaded page e.append)
run_effect e aborted (throws message) = if aborted then none else some (fails message)
