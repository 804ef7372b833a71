-- ===== src/Tests/SideChat.antt =====
-- A side chat that is asked for and cannot be created; and the theorems on it.
use codex_everywhere.Prelude.{◌≡◌, refl, false, List, [], ◌∷◌, none, some}
use codex_everywhere.Web.SideChat.{
  SideChatState, select, show, fails, answers, reload, initial_state,
}
use codex_everywhere.Web.SideChat.Flight
use codex_everywhere.Web.SideChat.Question.{reduce_all, reduce_all-parent}

abbrev visit : List Flight.Step
visit =
    Flight.selects "th"
    ∷ Flight.ends (answers none)
    ∷ Flight.asks (some "why?")
    ∷ Flight.reports "key"
    ∷ Flight.reloads
    ∷ []

abbrev clicks : List Flight.Step
clicks = Flight.selects "other" ∷ Flight.reloads ∷ Flight.asks_delete ∷ []

abbrev asking : SideChatState
asking = record initial_state { parent_thread_id = some "th"; initial_question = some "why?" }

reduce_all-parent_example :
    (reduce_all
      (fails "offline" false false ∷ select "other" ∷ show ∷ reload ∷ [])
      asking).parent_thread_id
    ≡ some "th"
unfolding initial_state
reduce_all-parent_example =
    reduce_all-parent "th" (fails "offline" false false ∷ select "other" ∷ show ∷ reload ∷ [])
      asking refl refl (tt, (tt, (tt, (tt, tt))))
