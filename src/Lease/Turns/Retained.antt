-- ===== src/Lease/Turns/Retained.antt =====
-- The status of an ended turn in apps/agent/src/v2/services/thread-lease-manager.ts while it is
-- observed.
use codex_everywhere.Prelude.{
  ◌-◌, ◌≡◌, refl, true, false, ◌||◌, List, [], ◌∷◌, Option, none, some, String, same, same_refl,
  ◌==◌, if_either, Bool-cases, Option-cases, inl, inr, All, arith,
}
use codex_everywhere.Table.{update, at, lookup}
use codex_everywhere.Table.Laws.{lookup-update}
use codex_everywhere.Table.Maps.{lookup-put, lookup-delete_key}
use codex_everywhere.Lease.Counts.{count_of-add, count_of-release}
use codex_everywhere.Lease.Turns.{
  Terminal, Timer, Turns, terminal_key, terminal_turn_status, status_in, is_observed,
  schedule_found, schedule, observe_terminal_turn, release_terminal_turn,
  observe_turn_start_response, settled, settle_each, release_turn_start_response, is_pending,
  complete_turn, note_ended, without_timer, fire_found, fire,
}
use codex_everywhere.Lease.Turns.Steps.{
  Step, observes, releases, observes_start, releases_start, completes, notes, fires, step, run,
}

schedule-terminals : (id : String) (s : Turns) → (schedule id s).terminals ≡ s.terminals
unfolding schedule
schedule-terminals id s = go (lookup terminal_key id s.terminals)
  where
    go : (o : Option Terminal) → (schedule_found o s).terminals ≡ s.terminals
    go none = refl
    go (some t) = if_either (λ (x : Turns). x.terminals ≡ s.terminals) _ refl refl

schedule-observers : (id : String) (s : Turns) → (schedule id s).observers ≡ s.observers
unfolding schedule
schedule-observers id s = go (lookup terminal_key id s.terminals)
  where
    go : (o : Option Terminal) → (schedule_found o s).observers ≡ s.observers
    go none = refl
    go (some t) = if_either (λ (x : Turns). x.observers ≡ s.observers) _ refl refl

module _ (k status : String) where
  -- It is observed, and its status is known.
  pub record IsKnown (s : Turns) : Type 0 where
    pub observed : is_observed k s ≡ true
    pub known : status_in (lookup terminal_key k s.terminals) ≡ some status

  schedule-IsKnown : (id : String) (s : Turns) → IsKnown s → IsKnown (schedule id s)
  schedule-IsKnown id s h = record {
    observed = rw (schedule-observers id s) h.observed;
    known = rw (schedule-terminals id s) h.known;
  }

  note-IsKnown : (id : String) (s : Turns) → IsKnown s → IsKnown (note_ended id s)
  unfolding note_ended
  note-IsKnown id s h =
      schedule-IsKnown id changed (record { observed = h.observed; known = known })
    where
      changed : Turns
      changed = record s { terminals = update (at terminal_key id) settled s.terminals }

      known : status_in (lookup terminal_key k changed.terminals) ≡ some status
      known = elim (Option-cases (lookup terminal_key k s.terminals)) [
        | inl absent ↦ ground (arith, absent, h.known)
        | inr (t, there) ↦ ground (
          arith,
          there,
          h.known,
          lookup-update terminal_key (at terminal_key id) settled (λ x. refl) k s.terminals,
        )
      ]

  settle_each-IsKnown : (ts : List Terminal) (s : Turns) → IsKnown s → IsKnown (settle_each ts s)
  unfolding settle_each
  settle_each-IsKnown [] s h = h
  settle_each-IsKnown (t ∷ ts) s h =
      settle_each-IsKnown ts _
        (if_either IsKnown t.pending_start_response (note-IsKnown t.turn_id s h) h)

  release_start-IsKnown : (s : Turns) → IsKnown s → IsKnown (release_turn_start_response s)
  unfolding release_turn_start_response
  release_start-IsKnown s h =
      if_either IsKnown (s.start_observers - 1 == 0) (settle_each-IsKnown s.terminals _ released)
        released
    where
      released : IsKnown (record s { start_observers = s.start_observers - 1 })
      released = record { observed = h.observed; known = h.known }

  fire-IsKnown : (a : Timer) (s : Turns) → IsKnown s → IsKnown (fire a s)
  unfolding fire
  fire-IsKnown a s h = go (lookup terminal_key a.turn_id s.terminals) refl
    where
      less : IsKnown (without_timer a s)
      less = record { observed = h.observed; known = h.known }

      go :
          (o : Option Terminal)
          → lookup terminal_key a.turn_id s.terminals ≡ o
          → IsKnown (fire_found a.serial o (without_timer a s))
      go none e = less
      go (some t) e = elim (Bool-cases (same t.turn_id k)) [
        | inl mine ↦ ground (arith, mine, h.observed, h.known)
        | inr other ↦ ground (
          arith,
          other,
          h.observed,
          h.known,
          lookup-delete_key terminal_key k t.turn_id s.terminals,
        )
      ]

  -- Another turn is released or ends.
  abbrev pub Leaves : Step → Type 0
  Leaves (releases id) = same id k ≡ false
  Leaves (completes id other) = same id k ≡ false
  Leaves _ = Unit

  complete-IsKnown :
      (id other : String) (s : Turns)
      → same id k ≡ false
      → IsKnown s
      → IsKnown (complete_turn id other s)
  unfolding complete_turn
  complete-IsKnown id other s n h =
      if_either IsKnown (is_pending s || is_observed id s)
        (record {
          observed = h.observed;
          known = ground (arith, n, h.known, lookup-put terminal_key k fresh s.terminals);
        })
        h
    where
      fresh : Terminal
      fresh = record {
        turn_id = id;
        status = other;
        pending_start_response = is_pending s;
        serial = s.next_serial;
      }

  step-IsKnown : (e : Step) (s : Turns) → Leaves e → IsKnown s → IsKnown (step e s)
  unfolding step observe_terminal_turn release_terminal_turn observe_turn_start_response
  step-IsKnown (observes id) s l h = record {
    observed = ground (arith, h.observed, count_of-add k id s.observers);
    known = h.known;
  }
  step-IsKnown (releases id) s l h = schedule-IsKnown id _ (record {
    observed = ground (arith, l, h.observed, count_of-release k id s.observers);
    known = h.known;
  })
  step-IsKnown observes_start s l h = record { observed = h.observed; known = h.known }
  step-IsKnown releases_start s l h = release_start-IsKnown s h
  step-IsKnown (completes id other) s l h = complete-IsKnown id other s l h
  step-IsKnown (notes id) s l h = note-IsKnown id s h
  step-IsKnown (fires t) s l h = fire-IsKnown t s h

  run-IsKnown : (es : List Step) (s : Turns) → All Leaves es → IsKnown s → IsKnown (run es s)
  unfolding run
  run-IsKnown [] s l h = h
  run-IsKnown (e ∷ es) s l h = run-IsKnown es (step e s) l.1 (step-IsKnown e s l.0 h)

  ends-observed : (s : Turns) → IsKnown (complete_turn k status (observe_terminal_turn k s))
  unfolding complete_turn observe_terminal_turn
  ends-observed s = ground (
    arith,
    count_of-add k k s.observers,
    same_refl k,
    lookup-put terminal_key k
        (record {
          turn_id = k;
          status = status;
          pending_start_response = is_pending s;
          serial = s.next_serial;
        })
        s.terminals,
  )

  -- A turn that is observed and then ends: its status is known until it is released or ends again, whatever happens
  -- to others, to starts and to timers.
  pub run-terminal_turn_status :
      (es : List Step) (s : Turns)
      → All Leaves es
      → terminal_turn_status k (run es (complete_turn k status (observe_terminal_turn k s)))
        ≡ some status
  unfolding terminal_turn_status
  run-terminal_turn_status es s l = (run-IsKnown es _ l (ends-observed s)).known
