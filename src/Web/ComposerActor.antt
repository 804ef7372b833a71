-- ===== src/Web/ComposerActor.antt =====
-- `createComposerActor` of apps/web/src/v4/actors/composer-actor.ts: the reducer, and the event that
-- each effect dispatches for each answer of the Gateway. The drafts are a function of the thread; the
-- source reads a thread without a draft as an empty one. The operation key that
-- `crypto.randomUUID` draws comes with the event.
pub mod Drafts
use codex_everywhere.Prelude.{
  Bool, true, false, ◌&&◌, ◌||◌, not, List, [], ◌∷◌, Option, none, some, String, same, trim,
  is_empty, if◌then◌else◌,
}
use codex_everywhere.Kernel.Actor.{Transition}

pub data Status : Type 0 where
  idle submitting outcome_unknown reconciling manual_review : Status

pub data Submission : Type 0 where
  turn queue : Submission

abbrev pub Drafts : Type 0
Drafts = String → String

pub record ComposerState : Type 0 where
  pub status : Status
  pub drafts : Drafts
  pub thread_id : Option String
  pub operation_key : Option String
  pub submitted_text : Option String
  pub submission : Option Submission
  pub error : Option String

pub data Event : Type 0 where
  draft : String → String → Event
  submit : Submission → String → Event
  sent : Event
  unknown : String → Event
  reconcile : String → Event
  resolved : Event
  manual : String → Event
  acknowledge_manual : Event
  failed : String → Event

pub data Effect : Type 0 where
  send : Submission → String → String → String → Effect
  status_of : String → Effect

-- `composerDraftFor`.
abbrev pub draft_for : ComposerState → String → String
draft_for s thread = s.drafts thread

abbrev pub set_draft : String → String → Drafts → Drafts
set_draft thread value drafts t = if same thread t then value else drafts t

abbrev pub is_idle : Status → Bool
is_idle idle = true
is_idle _ = false

abbrev pub is_manual : Status → Bool
is_manual manual_review = true
is_manual _ = false

abbrev pub is_thread : String → Option String → Bool
is_thread thread none = false
is_thread thread (some t) = same t thread

abbrev pub restore_at : ComposerState → Option String → Option String → Drafts
restore_at s (some thread) (some text) =
    if not (is_empty (draft_for s thread)) then s.drafts else set_draft thread text s.drafts
restore_at s _ _ = s.drafts

-- `restoreSubmittedDraft`.
unfoldable pub restore_submitted_draft : ComposerState → Drafts
restore_submitted_draft s = restore_at s s.thread_id s.submitted_text

abbrev pub idle_with : Drafts → Option String → Option String → ComposerState
idle_with drafts thread error = record {
  status = idle;
  drafts = drafts;
  thread_id = thread;
  operation_key = none;
  submitted_text = none;
  submission = none;
  error = error;
}

abbrev pub Move : Type 0
Move = Transition ComposerState Effect

abbrev pub quietly : ComposerState → Move
quietly s = record { state = s; effects = []; preserve_effects = true }

abbrev pub only : ComposerState → Move
only s = record { state = s; effects = []; preserve_effects = false }

abbrev pub starting : ComposerState → Effect → Move
starting s e = record { state = s; effects = e ∷ []; preserve_effects = false }

abbrev pub submitting_text : String → Submission → String → String → ComposerState → Move
submitting_text key kind thread text s =
    if not (is_idle s.status) || is_empty text
    then quietly s
    else starting
        (record {
          status = submitting;
          drafts = set_draft thread "" s.drafts;
          thread_id = some thread;
          operation_key = some key;
          submitted_text = some text;
          submission = some kind;
          error = none;
        })
        (send kind thread text key)

unfoldable pub reduce_composer : ComposerState → String × Event → Move
unfolding restore_submitted_draft trim
reduce_composer s (key, draft thread value) =
    if is_idle s.status && is_thread thread s.thread_id
    then quietly
        (record s { drafts = set_draft thread value s.drafts; error = none; thread_id = none })
    else quietly (record s { drafts = set_draft thread value s.drafts })
reduce_composer s (key, submit kind thread) =
    submitting_text key kind thread (trim (draft_for s thread)) s
reduce_composer s (key, sent) = only (idle_with s.drafts none none)
reduce_composer s (key, resolved) = only (idle_with s.drafts none none)
reduce_composer s (key, unknown k) =
    starting (record s { status = outcome_unknown; operation_key = some k }) (status_of k)
reduce_composer s (key, reconcile k) =
    starting (record s { status = reconciling; operation_key = some k }) (status_of k)
reduce_composer s (key, manual message) =
    only (record s { status = manual_review; error = some message })
reduce_composer s (key, acknowledge_manual) =
    if is_manual s.status then only (idle_with (restore_submitted_draft s) none none) else quietly s
reduce_composer s (key, failed message) =
    only (idle_with (restore_submitted_draft s) s.thread_id (some message))

-- What `mutation/status` answers.
pub data MutationAnswer : Type 0 where
  completed_ok pending_still indeterminate_there missing : MutationAnswer
  completed_error : String → MutationAnswer

-- How a request of the Gateway ends.
pub data GatewayResult : Type 0 where
  accepted : GatewayResult
  tells : MutationAnswer → GatewayResult
  unknown_outcome : String → GatewayResult
  fails : String → GatewayResult

abbrev pub answered : String → MutationAnswer → Event
answered key completed_ok = resolved
answered key (completed_error message) = failed message
answered key pending_still = reconcile key
answered key indeterminate_there = manual "宿主机无法确认本次发送是否生效，请检查任务历史后再操作。"
answered key missing = manual "宿主机没有找到本次操作，请检查任务历史。"

-- `runEffect`, for a signal that is not aborted; an answer of another shape does not pass the schema
-- of the method.
unfoldable pub run_effect : Effect → GatewayResult → Option Event
run_effect (send kind thread text key) accepted = some sent
run_effect (send kind thread text key) (unknown_outcome k) = some (unknown k)
run_effect (send kind thread text key) (fails message) = some (failed message)
run_effect (status_of key) (tells a) = some (answered key a)
run_effect (status_of key) (fails message) = some (manual message)
run_effect _ _ = none
