-- ===== src/Web/QueueActor.antt =====
-- `createQueueActor` of apps/web/src/v4/actors/queue-actor.ts: the reducer, and the event that each
-- effect dispatches for each answer of the Gateway. The operation key that `crypto.randomUUID` draws
-- comes with the event. A creation time stands for its ISO text.
pub mod Items
pub mod Flight
use codex_everywhere.Prelude.{
  ℕ, Bool, true, false, List, [], ◌∷◌, Option, none, some, String, same, leb, not, if◌then◌else◌,
}
use codex_everywhere.Table.{delete, at}
use codex_everywhere.Kernel.Actor.{Transition}

pub record QueueItem : Type 0 where
  pub id : String
  pub created_at : ℕ
  pub content : String

pub data Status : Type 0 where
  loading ready mutating reconciling indeterminate : Status

pub record QueueActorState : Type 0 where
  pub status : Status
  pub items : List QueueItem
  pub operation_key : Option String
  pub error : Option String

pub data Disposition : Type 0 where
  retry dismiss : Disposition

pub data Event : Type 0 where
  load : Option String → Event
  loaded : List QueueItem → Event
  add : String → String → Event
  remove : String → Event
  steer : String → String → Event
  acknowledge : String → Disposition → Event
  changed : QueueItem → Event
  removed : String → Event
  mutated : QueueItem → Event
  mutation_removed : String → Event
  unknown : String → Event
  reconcile : String → Event
  reconciled : Event
  failed : String → Bool → Event

pub data Effect : Type 0 where
  fetch : Option String → Effect
  adds : String → String → String → Effect
  removes : String → String → Effect
  steers : String → String → String → Effect
  acknowledges : String → Disposition → String → Effect
  status_of : String → Effect

-- `sort` is stable.
unfoldable pub insert : QueueItem → List QueueItem → List QueueItem
insert x [] = x ∷ []
insert x (y ∷ ys) =
    let rest = insert x ys in if leb x.created_at y.created_at then x ∷ y ∷ ys else y ∷ rest

unfoldable pub sort : List QueueItem → List QueueItem
unfolding insert
sort [] = []
sort (x ∷ xs) = insert x (sort xs)

abbrev pub id_of : QueueItem → String
id_of i = i.id

unfoldable pub upsert : List QueueItem → QueueItem → List QueueItem
unfolding sort
upsert items item = sort (item ∷ delete (at id_of item.id) items)

abbrev pub Move : Type 0
Move = Transition QueueActorState Effect

abbrev pub ignored : QueueActorState → Move
ignored s = record { state = s; effects = []; preserve_effects = true }

abbrev pub only : QueueActorState → Move
only s = record { state = s; effects = []; preserve_effects = false }

abbrev pub starting : QueueActorState → Effect → Move
starting s e = record { state = s; effects = e ∷ []; preserve_effects = false }

abbrev pub is_busy : Status → Bool
is_busy mutating = true
is_busy reconciling = true
is_busy _ = false

abbrev pub is_mutating : Status → Bool
is_mutating mutating = true
is_mutating _ = false

abbrev pub is_ready : Status → Bool
is_ready ready = true
is_ready _ = false

abbrev pub mutate : String → Effect → QueueActorState → Move
mutate key e s =
    if is_ready s.status
    then starting (record s { status = mutating; operation_key = some key }) e
    else ignored s

abbrev pub settled : Status → List QueueItem → Option String → QueueActorState
settled status items error = record {
  status = status;
  items = items;
  operation_key = none;
  error = error;
}

abbrev pub reconciling_by : String → QueueActorState → QueueActorState
reconciling_by key s = record s { status = reconciling; operation_key = some key }

abbrev pub unknown_message : String
unknown_message = "Queue 操作结果未知，正在向宿主机对账。"

unfoldable pub reduce_queue : QueueActorState → String × Event → Move
unfolding upsert
reduce_queue s (key, load thread) =
    if is_busy s.status then ignored s else starting (record s { status = loading }) (fetch thread)
reduce_queue s (key, loaded items) = only (settled ready items none)
reduce_queue s (key, add thread text) = mutate key (adds thread text key) s
reduce_queue s (key, remove item) = mutate key (removes item key) s
reduce_queue s (key, steer item text) = mutate key (steers item text key) s
reduce_queue s (key, acknowledge item d) = mutate key (acknowledges item d key) s
reduce_queue s (key, changed item) = ignored (record s { items = upsert s.items item })
reduce_queue s (key, removed item) = ignored (record s { items = delete (at id_of item) s.items })
reduce_queue s (key, mutated item) = only (settled ready (upsert s.items item) none)
reduce_queue s (key, mutation_removed item) =
    only (settled ready (delete (at id_of item) s.items) none)
reduce_queue s (key, unknown k) =
    starting (record (reconciling_by k s) { error = some unknown_message }) (status_of k)
reduce_queue s (key, reconcile k) = starting (reconciling_by k s) (status_of k)
reduce_queue s (key, reconciled) = starting (settled loading s.items none) (fetch none)
reduce_queue s (key, failed message false) = only (settled ready s.items (some message))
reduce_queue s (key, failed message true) =
    only (record s { status = indeterminate; error = some message })

-- What `mutation/status` answers.
pub data MutationAnswer : Type 0 where
  completed_ok pending_still indeterminate_there missing : MutationAnswer
  completed_error : String → MutationAnswer

-- How a request of the Gateway ends.
pub data GatewayResult : Type 0 where
  lists : List QueueItem → GatewayResult
  tells : MutationAnswer → GatewayResult
  gives : QueueItem → GatewayResult
  done : GatewayResult
  outcome_unknown : String → GatewayResult
  fails : String → GatewayResult

abbrev pub answered : String → MutationAnswer → Event
answered key completed_ok = reconciled
answered key (completed_error message) = failed message false
answered key pending_still = reconcile key
answered key indeterminate_there = failed "宿主机无法确认 Queue 操作是否完成，请检查 Queue 状态。" true
answered key missing = failed "宿主机没有找到 Queue 操作记录，请人工检查后再操作。" true

-- `runEffect`, for a signal that is not aborted; an answer of another shape does not pass the schema
-- of the method.
unfoldable pub run_effect : Effect → GatewayResult → Option Event
run_effect e (outcome_unknown key) = some (unknown key)
run_effect e (fails message) = some (failed message false)
run_effect (fetch thread) (lists items) = some (loaded items)
run_effect (status_of key) (tells a) = some (answered key a)
run_effect (adds thread text key) (gives item) = some (mutated item)
run_effect (removes item key) done = some (mutation_removed item)
run_effect (steers item text key) (gives i) = some (mutated i)
run_effect (acknowledges item d key) (gives i) = some (mutated i)
run_effect _ _ = none
