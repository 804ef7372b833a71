-- ===== src/Lease/Turns/Covered.antt =====
-- The cleanup of ended turns in apps/agent/src/v2/services/thread-lease-manager.ts, over any run.
use codex_everywhere.Prelude.{
  ◌-◌, ◌≡◌, refl, subst, ◌⊎◌, Bool, true, false, ◌&&◌, ◌||◌, List, [], ◌∷◌, Option, none, some,
  String, same, same_iff, same_refl, ◌==◌, if◌then◌else◌, Bool-cases, Option-cases, inl, inr, arith,
}
use codex_everywhere.Table.{find, update, at, lookup}
use codex_everywhere.Table.Laws.{lookup-update}
use codex_everywhere.Lease.Turns.{
  Terminal, Turns, terminal_key, schedule_found, schedule, observe_turn_start_response, settled,
  settle_each, release_turn_start_response, note_ended, new_turns,
}
use codex_everywhere.Lease.Turns.Steps.{
  Step, observes, releases, observes_start, releases_start, completes, notes, fires, step, run,
}
use codex_everywhere.Lease.Turns.Due.{
  has_timer, is_due, due_at, Due, named, schedule-Due, schedule-itself, observe-Due, release-Due,
  complete-Due, note-Due, fire-Due,
}

module _ (k : String) where
  note-mine : (s : Turns) → Due k (note_ended k s)
  unfolding note_ended
  note-mine s = elim (Option-cases (lookup terminal_key k s.terminals)) [
    | inl absent ↦ schedule-Due k k changed (
        ground (
          arith,
          absent,
          lookup-update terminal_key (at terminal_key k) settled (λ t. refl) k s.terminals,
        ))
    | inr (t, there) ↦
        schedule-itself k changed (settled t)
          (ground (
            arith,
            there,
            named k t s there,
            same_refl k,
            lookup-update terminal_key (at terminal_key k) settled (λ x. refl) k s.terminals,
          ))
          refl
  ]
    where
      changed : Turns
      changed = record s { terminals = update (at terminal_key k) settled s.terminals }

  -- A turn that the loop has still to settle may wait for a response.
  abbrev waits_in : Option Terminal → Bool
  waits_in none = false
  waits_in (some t) = t.pending_start_response

  abbrev soon_at : List Terminal → Turns → Option Terminal → Bool
  soon_at ts s none = true
  soon_at ts s (some t) =
      is_due s t || (t.pending_start_response && waits_in (lookup terminal_key k ts))

  abbrev Soon : List Terminal → Turns → Type 0
  Soon ts s = soon_at ts s (lookup terminal_key k s.terminals) ≡ true

  schedule-Soon :
      (ts : List Terminal) (id : String) (s : Turns) → Soon ts s → Soon ts (schedule id s)
  unfolding schedule has_timer
  schedule-Soon ts id s h = go (lookup terminal_key id s.terminals)
    where
      go : (o : Option Terminal) → Soon ts (schedule_found o s)
      go none = h
      go (some x) = elim (Option-cases (lookup terminal_key k s.terminals)) [
        | inl absent ↦ ground (arith, absent)
        | inr (t, there) ↦ ground (arith, there, h)
      ]

  note-other :
      (ts : List Terminal) (id : String) (s : Turns)
      → same id k ≡ false
      → Soon ts s
      → Soon ts (note_ended id s)
  unfolding note_ended
  note-other ts id s n h =
      schedule-Soon ts id changed (elim (Option-cases (lookup terminal_key k s.terminals)) [
        | inl absent ↦ ground (
          arith,
          absent,
          lookup-update terminal_key (at terminal_key id) settled (λ t. refl) k s.terminals,
        )
        | inr (t, there) ↦ ground (
          arith,
          there,
          h,
          n,
          named k t s there,
          lookup-update terminal_key (at terminal_key id) settled (λ x. refl) k s.terminals,
        )
      ])
    where
      changed : Turns
      changed = record s { terminals = update (at terminal_key id) settled s.terminals }

  Due-Soon : (ts : List Terminal) (s : Turns) → Due k s → Soon ts s
  Due-Soon ts s h = elim (Option-cases (lookup terminal_key k s.terminals)) [
    | inl absent ↦ ground (arith, absent)
    | inr (t, there) ↦ ground (arith, there, h)
  ]

  -- A turn that does not wait, or another, is done with.
  tail-Soon :
      (x : Terminal) (ts : List Terminal) (s : Turns)
      → (same x.turn_id k ≡ true → x.pending_start_response ≡ false)
      → Soon (x ∷ ts) s
      → Soon ts s
  unfolding find
  tail-Soon x ts s f h = go (Bool-cases (same x.turn_id k))
    where
      go : (same x.turn_id k ≡ true) ⊎ (same x.turn_id k ≡ false) → Soon ts s
      go (inl mine) = elim (Option-cases (lookup terminal_key k s.terminals)) [
        | inl absent ↦ ground (arith, absent)
        | inr (t, there) ↦ ground (arith, there, h, mine, f mine)
      ]
      go (inr other) = elim (Option-cases (lookup terminal_key k s.terminals)) [
        | inl absent ↦ ground (arith, absent)
        | inr (t, there) ↦ ground (arith, there, h, other)
      ]

  settle_each-Due : (ts : List Terminal) (s : Turns) → Soon ts s → Due k (settle_each ts s)
  unfolding settle_each find
  settle_each-Due [] s h = elim (Option-cases (lookup terminal_key k s.terminals)) [
    | inl absent ↦ ground (arith, absent)
    | inr (t, there) ↦ ground (arith, there, h)
  ]
  settle_each-Due (x ∷ ts) s h =
      settle_each-Due ts _
        (go (Bool-cases (same x.turn_id k)) (Bool-cases x.pending_start_response))
    where
      go :
          (same x.turn_id k ≡ true) ⊎ (same x.turn_id k ≡ false)
          → (x.pending_start_response ≡ true) ⊎ (x.pending_start_response ≡ false)
          → Soon ts (if x.pending_start_response then note_ended x.turn_id s else s)
      go (inl mine) (inl waits) =
          rw (waits, (same_iff x.turn_id k).0 mine) (Due-Soon ts (note_ended k s) (note-mine s))
      go (inl mine) (inr free) = rw free (tail-Soon x ts s (λ e. free) h)
      go (inr other) (inl waits) =
          rw waits (note-other ts x.turn_id s other (tail-Soon x ts s (λ e. cc (e, other)) h))
      go (inr other) (inr free) = rw free (tail-Soon x ts s (λ e. free) h)

  release_start-Due : (s : Turns) → Due k s → Due k (release_turn_start_response s)
  unfolding release_turn_start_response
  release_start-Due s h = elim (Bool-cases (s.start_observers - 1 == 0)) [
    | inl last ↦ rw last (
        settle_each-Due s.terminals _ (elim (Option-cases (lookup terminal_key k s.terminals)) [
          | inl absent ↦ ground (arith, absent)
          | inr (t, there) ↦ ground (arith, there, h, last)
        ]))
    | inr more ↦ rw more (elim (Option-cases (lookup terminal_key k s.terminals)) [
      | inl absent ↦ ground (arith, absent)
      | inr (t, there) ↦ ground (arith, there, h, more)
    ])
  ]

  start-Due : (s : Turns) → Due k s → Due k (observe_turn_start_response s)
  unfolding observe_turn_start_response
  start-Due s h = elim (Option-cases (lookup terminal_key k s.terminals)) [
    | inl absent ↦ ground (arith, absent)
    | inr (t, there) ↦ ground (arith, there, h)
  ]

  step-Due : (e : Step) (s : Turns) → Due k s → Due k (step e s)
  unfolding step
  step-Due (observes id) s h = observe-Due k id s h
  step-Due (releases id) s h = release-Due k id s h
  step-Due observes_start s h = start-Due s h
  step-Due releases_start s h = release_start-Due s h
  step-Due (completes id status) s h = complete-Due k id status s h
  step-Due (notes id) s h = note-Due k id s h
  step-Due (fires t) s h = fire-Due k t s h

  run-Due : (es : List Step) (s : Turns) → Due k s → Due k (run es s)
  unfolding run
  run-Due [] s h = h
  run-Due (e ∷ es) s h = run-Due es (step e s) (step-Due e s h)

new-Due : (k : String) → due_at new_turns (lookup terminal_key k new_turns.terminals) ≡ true
unfolding new_turns find
new-Due k = refl

-- Whatever is observed, released, ended and settled, an ended turn that is kept is observed, waits for the response of a
-- start that is being observed, or has its cleanup scheduled.
pub run-is_due :
    (es : List Step) (k : String) (t : Terminal)
    → lookup terminal_key k (run es new_turns).terminals ≡ some t
    → is_due (run es new_turns) t ≡ true
run-is_due es k t e =
    subst (λ (o : Option Terminal). due_at (run es new_turns) o ≡ true) e
      (run-Due k es new_turns (new-Due k))
