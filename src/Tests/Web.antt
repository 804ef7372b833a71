-- ===== src/Tests/Web.antt =====
-- The client's actors at concrete events; and the theorems on them.
use codex_everywhere.Prelude.{
  ℕ, ◌≡◌, refl, true, false, List, [], ◌∷◌, none, some, String, same, trim, trim_end, text_discrete,
  if◌then◌else◌, arith,
}
use codex_everywhere.Table.{modified}
use codex_everywhere.Table.Laws.{IsKeyed}
use codex_everywhere.Kernel.Actor.{ActorState, Context, is_current, dispatch_from}
use codex_everywhere.Kernel.Actor.Stale
use codex_everywhere.Kernel.Actor.Stale.{Step, dispatches, step, superseded-inert}
use codex_everywhere.Web.QueueActor.{
  QueueItem, QueueActorState, mutating, id_of, Event, Effect, load, add, adds, changed, loaded,
  mutated, unknown, reduce_queue,
}
use codex_everywhere.Web.QueueActor.Flight.{dispatch_all, flight-stays}
use codex_everywhere.Web.ComposerActor.{ComposerState, reduce_composer}
use codex_everywhere.Web.ComposerActor
use codex_everywhere.Web.ComposerActor.Drafts.{reduce_all, submit-fails_back}

abbrev item : String → ℕ → QueueItem
item id t = record { id = id; created_at = t; content = "hello" }

abbrev shown : QueueActorState
shown = record {
  status = mutating;
  items = item "a" 3 ∷ [];
  operation_key = some "k";
  error = none;
}

shown-IsKeyed : IsKeyed id_of shown.items
unfolding modified
shown-IsKeyed k = ground arith

abbrev flying : ActorState QueueActorState Effect
flying = record {
  state = shown;
  generation = 2;
  effect_scope = some 5;
  aborted = 4 ∷ [];
  next_scope = 6;
  closed = false;
  started = (record { generation = 2; scope = 5 }, adds "th" "hello" "k") ∷ [];
}

abbrev context : Context
context = record { generation = 2; scope = 5 }

abbrev clicks : List (String × Event)
clicks = ("x", load none) ∷ ("y", add "th" "again") ∷ ("z", changed (item "a" 3)) ∷ []

flight-stays_example :
    let b = dispatch_all clicks flying in
    (b.state.status ≡ mutating)
    × ((b.state.operation_key ≡ some "k")
        × ((b.started ≡ flying.started) × (is_current context b ≡ true)))
flight-stays_example = flight-stays clicks flying context (refl, (refl, (refl, tt))) refl refl

superseded-inert_example :
    let after =
      Stale.run reduce_queue [] (step reduce_queue (dispatches ("k", loaded [])) flying) in
    dispatch_from reduce_queue context ("k", mutated (item "b" 4)) after ≡ some (after, false)
unfolding reduce_queue
superseded-inert_example =
    superseded-inert reduce_queue flying ("k", loaded []) context [] ("k", mutated (item "b" 4))
      refl refl (omega arith)

abbrev writing : ComposerState
writing = record {
  status = ComposerActor.idle;
  drafts = λ t. if same t "th" then " hello " else "";
  thread_id = none;
  operation_key = none;
  submitted_text = none;
  submission = none;
  error = none;
}

abbrev reports : List (String × ComposerActor.Event)
reports = ("", ComposerActor.unknown "k") ∷ ("", ComposerActor.draft "other" "text") ∷ []

submit-fails_back_example :
    let later =
      reduce_all reports
        (reduce_composer writing ("k", ComposerActor.submit ComposerActor.turn "th")).state in
    let back = (reduce_composer later ("", ComposerActor.failed "no")).state in
    (back.status ≡ ComposerActor.idle) × (back.drafts "th" ≡ trim (writing.drafts "th"))
unfolding text_discrete trim trim_end
submit-fails_back_example =
    submit-fails_back ComposerActor.turn "th" "k" "" "no" reports writing refl refl
      (refl, (refl, tt))
