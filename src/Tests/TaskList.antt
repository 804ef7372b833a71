-- ===== src/Tests/TaskList.antt =====
-- A list of tasks that is loaded while a thread's state changes; and the theorems on it.
use codex_everywhere.Prelude.{ℕ, ◌≡◌, refl, true, [], ◌∷◌, none, some, String, text_discrete}
use codex_everywhere.Table.{find, lookup, put}
use codex_everywhere.Web.TaskList.{Task, Page, task_key, answers, initial_state, merge_tasks}
use codex_everywhere.Web.TaskList.Flight.{
  asks, asks_more, notified, answered, step, run, start, is_asking, asks_for, run-asks_for,
}
use codex_everywhere.Web.TaskList.Notified.{is_shown, run-is_shown}

abbrev task : String → ℕ → Task
task id t = record { id = id; updated_at = t; state = "running"; body = "" }

abbrev page : Page
page = record { threads = task "a" 1 ∷ task "b" 2 ∷ []; next_cursor = some "c"; has_more = true }

merged :
    merge_tasks (task "a" 1 ∷ task "b" 5 ∷ []) (task "c" 3 ∷ task "a" 3 ∷ [])
    ≡ task "b" 5 ∷ task "a" 3 ∷ task "c" 3 ∷ []
unfolding merge_tasks put text_discrete
merged = refl

run-asks_for_example :
    let f =
      run
        (asks (some "w") none none ∷ asks none none none ∷ answered (answers page) ∷ asks_more ∷ [])
        start in
    (f.actor.request_in_flight ≡ is_asking f.effect) × (asks_for f.actor f.effect ≡ true)
run-asks_for_example =
    run-asks_for
      (asks (some "w") none none ∷ asks none none none ∷ answered (answers page) ∷ asks_more ∷ [])

run-is_shown_example :
    is_shown "idle" (
      lookup task_key "a"
        (step (answered (answers page)) (
          run
            (asks none none none ∷ notified "b" "failed" ∷ [])
            (step (notified "a" "idle") (run (asks none none none ∷ []) start)))).actor.tasks)
    ≡ true
unfolding run start initial_state find text_discrete
run-is_shown_example =
    run-is_shown (asks none none none ∷ []) (asks none none none ∷ notified "b" "failed" ∷ []) "a"
      "idle" page refl (refl, (refl, tt))
