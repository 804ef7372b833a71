-- ===== src/Web/SideChat.antt =====
-- The control actor of `SideChatRuntime` in apps/web/src/v4/actors/side-chat-runtime.ts: its reducer and effect runner.
-- What `durableMutation` ends with is an argument.
pub mod Flight
pub mod Question
use codex_everywhere.Prelude.{
  Bool, true, false, ◌&&◌, ◌||◌, not, List, [], ◌∷◌, Option, none, some, String, same,
  if◌then◌else◌,
}
use codex_everywhere.Kernel.Actor.{Transition}

pub data SideStatus : Type 0 where
  ready indeterminate another : SideStatus

pub record Side : Type 0 where
  pub thread_id : Option String
  pub status : SideStatus
  pub creation_key : Option String

pub data Status : Type 0 where
  idle loading creating deleting reconciling review failed unsupported : Status

pub record SideChatState : Type 0 where
  pub parent_thread_id : Option String
  pub side : Option Side
  pub visible : Bool
  pub status : Status
  pub error : Option String
  pub operation_key : Option String
  pub initial_question : Option String

pub data Event : Type 0 where
  select : String → Event
  show hide : Event
  start : Option String → Event
  delete abandon reload consumed : Event
  loaded created : Option Side → Event
  deleted : Event
  unknown : String → Event
  fails : String → Bool → Bool → Event

pub data Effect : Type 0 where
  reads starts deletes : String → Effect
  abandons : String → String → Effect

abbrev pub Move : Type 0
Move = Transition SideChatState Effect

unfoldable pub initial_state : SideChatState
initial_state = record {
  parent_thread_id = none;
  side = none;
  visible = false;
  status = idle;
  error = none;
  operation_key = none;
  initial_question = none;
}

abbrev pub is_there {ℓ} : {A : Type ℓ} → Option A → Bool
is_there none = false
is_there (some x) = true

abbrev pub busy_status : Status → Bool
busy_status creating = true
busy_status deleting = true
busy_status reconciling = true
busy_status _ = false

unfoldable pub side_mutation_busy : SideChatState → Bool
side_mutation_busy s = busy_status s.status

abbrev pub stay : SideChatState → Move
stay s = record { state = s; effects = []; preserve_effects = true }

abbrev pub with_effect : SideChatState → Effect → Move
with_effect s e = record { state = s; effects = e ∷ []; preserve_effects = false }

abbrev pub settle : SideChatState → Move
settle s = record { state = s; effects = []; preserve_effects = false }

abbrev pub is_text : String → Option String → Bool
is_text t none = false
is_text t (some u) = same u t

unfoldable pub reduce_select : String → SideChatState → Move
unfolding initial_state side_mutation_busy
reduce_select parent s =
    if side_mutation_busy s || (is_there s.initial_question || is_text parent s.parent_thread_id)
    then stay s
    else with_effect (record initial_state { parent_thread_id = some parent; status = loading })
        (reads parent)

abbrev pub reduce_reload : Option String → SideChatState → Move
unfolding side_mutation_busy
reduce_reload none s = stay s
reduce_reload (some parent) s =
    if side_mutation_busy s
    then stay s
    else with_effect (record s { status = loading }) (reads parent)

abbrev pub can_start : Status → Bool
can_start idle = true
can_start failed = true
can_start _ = false

abbrev pub or_else : Option String → Option String → Option String
or_else none other = other
or_else (some t) other = some t

abbrev pub reduce_start : Option String → Option String → SideChatState → Move
reduce_start question none s = stay s
reduce_start question (some parent) s =
    if is_there s.side || not (can_start s.status)
    then stay s
    else with_effect
        (record s {
          visible = true;
          status = creating;
          initial_question = or_else question s.initial_question;
        })
        (starts parent)

-- The key of a side whose creation has an unknown outcome; an empty one does not count.
abbrev pub orphan_key : Option Side → Option String
orphan_key none = none
orphan_key (some x) = elim x.status [
  | ready ↦ none
  | indeterminate ↦ elim x.creation_key [
    | none ↦ none
    | some k ↦ if same k "" then none else some k
  ]
  | another ↦ none
]

abbrev pub abandon_key : String → Option String → SideChatState → Move
unfolding side_mutation_busy
abandon_key parent none s = stay s
abandon_key parent (some key) s =
    if same parent "" || side_mutation_busy s
    then stay s
    else with_effect (record s { status = deleting }) (abandons parent key)

abbrev pub reduce_abandon : Option String → SideChatState → Move
reduce_abandon none s = stay s
reduce_abandon (some parent) s = abandon_key parent (orphan_key s.side) s

abbrev pub reduce_delete : Option String → SideChatState → Move
unfolding side_mutation_busy
reduce_delete none s = stay s
reduce_delete (some parent) s =
    if side_mutation_busy s || not (is_there s.side)
    then stay s
    else with_effect (record s { status = deleting }) (deletes parent)

abbrev pub status_of : Option Side → Status
status_of none = idle
status_of (some x) = elim x.status [ ready ↦ idle | indeterminate ↦ review | another ↦ review ]

unfoldable pub reduce_loaded : Option Side → SideChatState → Move
reduce_loaded side s = settle (record s {
  side = side;
  visible = if not (is_there side) && is_there s.side then false else s.visible;
  status = status_of side;
  error = none;
  operation_key = none;
})

unfoldable pub reduce_side_chat : SideChatState → Event → Move
unfolding reduce_select reduce_loaded initial_state
reduce_side_chat s (select parent) = reduce_select parent s
reduce_side_chat s show = stay (record s { visible = true })
reduce_side_chat s hide = stay (record s { visible = false })
reduce_side_chat s (start question) = reduce_start question s.parent_thread_id s
reduce_side_chat s delete = reduce_delete s.parent_thread_id s
reduce_side_chat s abandon = reduce_abandon s.parent_thread_id s
reduce_side_chat s reload = reduce_reload s.parent_thread_id s
reduce_side_chat s consumed = stay (record s { initial_question = none })
reduce_side_chat s (loaded side) = reduce_loaded side s
reduce_side_chat s (created side) = reduce_loaded side s
reduce_side_chat s deleted = settle (record initial_state { parent_thread_id = s.parent_thread_id })
reduce_side_chat s (unknown key) =
    stay (record s { status = reconciling; operation_key = some key })
reduce_side_chat s (fails message needs_review is_unsupported) = settle (record s {
  status = if is_unsupported then unsupported else if needs_review then review else failed;
  error = some message;
})

-- How the request of an effect ends: the side is what a read or a start answers.
pub data Answer : Type 0 where
  answers : Option Side → Answer
  throws : String → Bool → Bool → Answer

abbrev pub answered_event : Effect → Option Side → Event
answered_event (reads p) side = loaded side
answered_event (starts p) side = created side
answered_event (deletes p) side = deleted
answered_event (abandons p k) side = deleted

-- What the effect dispatches last, by whether its signal is aborted.
unfoldable pub run_effect : Effect → Bool → Answer → Option Event
run_effect e aborted (answers side) = some (answered_event e side)
run_effect e aborted (throws message needs_review is_unsupported) =
    if aborted then none else some (fails message needs_review is_unsupported)
