-- ===== src/Web/ThreadActor/Effects.antt =====
-- `runEffect` of apps/web/src/v4/actors/thread-actor.ts with `openThreadWithCompatibility`: the event
-- that an effect dispatches, by what the Gateway answers to each of its requests. The requests that it
-- makes are a log, the latest first.
use codex_everywhere.Prelude.{
  ◌≡◌, refl, ◌≢◌, sym, All, Bool, true, false, List, [], ◌∷◌, ◌++◌, Option, none, some, String,
  if◌then◌else◌,
}
use codex_everywhere.Web.Timeline.{Snapshot, HistoryPage}
use codex_everywhere.Web.ThreadActor.{
  Event, opened, history_loaded, history_failed, failed, Effect, fetch, history, close_thread,
}

-- `invalid_input` is a `GatewayRemoteError` with the code INVALID_INPUT; `rejects` with `none` is no `Error`.
pub data Answer (A : Type 0) : Type 0 where
  answers : A → Answer A
  invalid_input : String → Answer A
  rejects : Option String → Answer A

-- What a `thread/open` request asks for beyond its base.
pub record OpenInput : Type 0 where
  pub history_turn_limit : Bool
  pub working_directory : Bool
  pub context_usage : Bool
  pub compaction_count : Bool

abbrev pub asking : Bool → Bool → Bool → Bool → OpenInput
asking turns directory usage count = record {
  history_turn_limit = turns;
  working_directory = directory;
  context_usage = usage;
  compaction_count = count;
}

abbrev pub candidates : List OpenInput
candidates =
    asking true true true true
    ∷ asking false true true true
    ∷ asking false true true false
    ∷ asking false true false false
    ∷ asking false false false false
    ∷ []

abbrev pub last_error : Option String → Option String
last_error none = some "No compatible thread/open request"
last_error (some e) = some e

-- The loop over the candidates, with the last error of compatibility; and how many requests it makes.
unfoldable pub open_first :
    (OpenInput → Answer Snapshot) → List OpenInput → Option String → Answer Snapshot
open_first gateway [] error = rejects (last_error error)
open_first gateway (c ∷ cs) error = elim (gateway c) [
  | answers s ↦ answers s
  | invalid_input e ↦ open_first gateway cs (some e)
  | rejects e ↦ rejects e
]

unfoldable pub open_thread_with_compatibility : (OpenInput → Answer Snapshot) → Answer Snapshot
unfolding open_first
open_thread_with_compatibility gateway = open_first gateway candidates none

abbrev pub message_of : String → Option String → String
message_of fallback none = fallback
message_of fallback (some m) = m

abbrev pub opened_event : Answer Snapshot → Event
opened_event (answers s) = opened s
opened_event (invalid_input e) = failed e
opened_event (rejects e) = failed (message_of "任务打开失败" e)

-- A history request that is refused is made once more without `historyTurnLimit`.
abbrev pub history_answer : Answer HistoryPage → Answer HistoryPage → Answer HistoryPage
history_answer (invalid_input e) plain = plain
history_answer full plain = full

abbrev pub history_event : Answer HistoryPage → Event
history_event (answers p) = history_loaded p
history_event (invalid_input e) = history_failed e
history_event (rejects e) = history_failed (message_of "历史加载失败" e)

-- What the Gateway answers: to `thread/close`, to each `thread/open`, and to `thread/history` with and
-- without the limit of turns; and whether the effect is still current when the thread is closed.
pub record Gateway : Type 0 where
  pub closing : Answer (Unit {0})
  pub opening : OpenInput → Answer Snapshot
  pub history_by_turns : Answer HistoryPage
  pub history_plain : Answer HistoryPage
  pub still_current : Bool

abbrev pub closed_event : Answer (Unit {0}) → Option Event → Option Event
closed_event (answers u) next = next
closed_event (invalid_input e) next = some (failed e)
closed_event (rejects e) next = some (failed (message_of "任务打开失败" e))

-- For a signal that is not aborted; `none` where nothing is dispatched.
unfoldable pub run_effect : Effect → Gateway → Option Event
unfolding open_thread_with_compatibility
run_effect (close_thread t) g = none
run_effect (history t cursor) g =
    some (history_event (history_answer g.history_by_turns g.history_plain))
run_effect (fetch t none) g = some (opened_event (open_thread_with_compatibility g.opening))
run_effect (fetch t (some previous)) g = closed_event g.closing (
    if g.still_current
    then some (opened_event (open_thread_with_compatibility g.opening))
    else none)

-- The candidate refuses the fields that it does not know.
abbrev IsRefused : (OpenInput → Answer Snapshot) → OpenInput → Type 0
IsRefused gateway c = (e : String) × (gateway c ≡ invalid_input e)

-- Every candidate before one that is not refused as invalid is refused; then the answer is that one's.
pub open_first-answer :
    (gateway : OpenInput → Answer Snapshot) (before : List OpenInput) (c : OpenInput)
    (after : List OpenInput) (error : Option String)
    → All (IsRefused gateway) before
    → ((e : String) → gateway c ≢ invalid_input e)
    → open_first gateway (before ++ c ∷ after) error ≡ gateway c
unfolding open_first
open_first-answer gateway [] c after error r n = go (gateway c) refl
  where
    go :
        (a : Answer Snapshot)
        → gateway c ≡ a
        → (elim a [
          | answers s ↦ answers s
          | invalid_input e ↦ open_first gateway after (some e)
          | rejects e ↦ rejects e
        ])
          ≡ gateway c
    go (answers s) q = sym q
    go (invalid_input e) q = absurd (n e q)
    go (rejects e) q = sym q
open_first-answer gateway (b ∷ before) c after error r n =
    rw r.0.1 (open_first-answer gateway before c after (some r.0.0) r.1 n)
