-- ===== src/Lease/Manager/Steps.antt =====
-- Whatever `ThreadLeaseManager` of apps/agent/src/v2/services/thread-lease-manager.ts is asked and told, in any order.
use codex_everywhere.Prelude.{ℕ, Bool, List, [], ◌∷◌, String, ◌==◌, if◌then◌else◌}
use codex_everywhere.Table.{exists}
use codex_everywhere.Lease.Manager.{
  Manager, acquire, acquire_after, created, creation_settled, dispose, disposal_settled,
  close_thread, close, start, bind_start, initialized, without_start,
}

pub data Step : Type 0 where
  acquires : String → Step
  resumes : String → Step
  creates : Bool → String → ℕ → Step
  settles : String → ℕ → Step
  disposes : String → ℕ → Step
  disposed : String → ℕ → Step
  closes_thread : String → Step
  closes : Step
  starts : Step
  initializes : Bool → String → ℕ → Step
  binds : Bool → String → ℕ → Step
  ends_start : ℕ → Step

-- A call of `start` goes on only until it has ended.
abbrev pub in_start : ℕ → Manager → Manager → Manager
in_start n m next = if exists (λ k. k == n) m.starting then next else m

unfoldable pub step : Step → Manager → Manager
unfolding acquire acquire_after created creation_settled dispose disposal_settled close_thread close
    start bind_start initialized
step (acquires id) m = (acquire id m).0
step (resumes id) m = (acquire_after id m).0
step (creates works id n) m = created works id n m
step (settles id n) m = creation_settled id n m
step (disposes id n) m = dispose id n m
step (disposed id n) m = disposal_settled id n m
step (closes_thread id) m = close_thread id m
step closes m = close m
step starts m = (start m).0
step (initializes attaches id n) m = in_start n m (initialized attaches id n m).0
step (binds attaches id n) m = in_start n m (bind_start attaches id n m).0
step (ends_start n) m = without_start n m

unfoldable pub run : List Step → Manager → Manager
unfolding step
run [] m = m
run (e ∷ es) m = run es (step e m)
