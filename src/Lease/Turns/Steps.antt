-- ===== src/Lease/Turns/Steps.antt =====
-- What may happen to the turns of a `ThreadLease` of apps/agent/src/v2/services/thread-lease-manager.ts, in any order.
use codex_everywhere.Prelude.{List, [], ◌∷◌, String}
use codex_everywhere.Lease.Turns.{
  Timer, Turns, observe_terminal_turn, release_terminal_turn, observe_turn_start_response,
  release_turn_start_response, complete_turn, note_ended, fire,
}

pub data Step : Type 0 where
  observes : String → Step
  releases : String → Step
  observes_start : Step
  releases_start : Step
  completes : String → String → Step
  notes : String → Step
  fires : Timer → Step

unfoldable pub step : Step → Turns → Turns
unfolding observe_terminal_turn release_terminal_turn observe_turn_start_response
    release_turn_start_response complete_turn note_ended fire
step (observes id) s = observe_terminal_turn id s
step (releases id) s = release_terminal_turn id s
step observes_start s = observe_turn_start_response s
step releases_start s = release_turn_start_response s
step (completes id status) s = complete_turn id status s
step (notes id) s = note_ended id s
step (fires t) s = fire t s

unfoldable pub run : List Step → Turns → Turns
unfolding step
run [] s = s
run (e ∷ es) s = run es (step e s)
