-- ===== src/Lease/Turns/Due.antt =====
-- The cleanup of ended turns in apps/agent/src/v2/services/thread-lease-manager.ts, for each
-- operation.
use codex_everywhere.Prelude.{
  ◌≡◌, refl, sym, subst, ◌⊎◌, Bool, true, false, ◌&&◌, ◌||◌, not, List, [], ◌∷◌, Option, none, some,
  String, same, same_iff, same_refl, Bool-cases, Option-cases, inl, inr, arith,
}
use codex_everywhere.Table.{update, at, lookup}
use codex_everywhere.Table.Laws.{lookup-update}
use codex_everywhere.Table.Maps.{lookup-put, lookup-delete_key, found-key}
use codex_everywhere.Lease.Counts.{release_count, count_of-add, count_of-release}
use codex_everywhere.Lease.Turns.{
  Terminal, Timer, Turns, terminal_key, is_observed, schedule_found, schedule,
  observe_terminal_turn, release_terminal_turn, settled, is_pending, complete_turn, note_ended,
  is_timer, remove_timer, without_timer, fire_found, fire,
}

unfoldable pub has_timer : Timer → List Timer → Bool
has_timer t [] = false
has_timer t (x ∷ xs) = is_timer t x || has_timer t xs

abbrev pub timer_of : Terminal → Timer
timer_of t = record { turn_id = t.turn_id; serial = t.serial }

-- Somebody observes the turn, a response is awaited, or its cleanup is due.
abbrev pub is_due : Turns → Terminal → Bool
is_due s t =
    (is_observed t.turn_id s || (t.pending_start_response || has_timer (timer_of t) s.timers))
    && (not t.pending_start_response || is_pending s)

abbrev pub due_at : Turns → Option Terminal → Bool
due_at s none = true
due_at s (some t) = is_due s t

module _ (k : String) where
  abbrev pub Due : Turns → Type 0
  Due s = due_at s (lookup terminal_key k s.terminals) ≡ true

  pub schedule-Due : (id : String) (s : Turns) → Due s → Due (schedule id s)
  unfolding schedule has_timer
  schedule-Due id s h = go (lookup terminal_key id s.terminals)
    where
      go : (o : Option Terminal) → Due (schedule_found o s)
      go none = h
      go (some x) = elim (Option-cases (lookup terminal_key k s.terminals)) [
        | inl absent ↦ ground (arith, absent)
        | inr (t, there) ↦ ground (arith, there, h)
      ]

  -- The turn is observed, or its cleanup is scheduled.
  pub schedule-itself :
      (s : Turns) (t : Terminal)
      → lookup terminal_key k s.terminals ≡ some t
      → t.pending_start_response ≡ false
      → Due (schedule k s)
  unfolding schedule has_timer
  schedule-itself s t e p = ground (arith, e, p, same_refl t.turn_id)

  pub named :
      (t : Terminal) (s : Turns) → lookup terminal_key k s.terminals ≡ some t → t.turn_id ≡ k
  named t s e = found-key terminal_key k t s.terminals e

  pub observe-Due : (id : String) (s : Turns) → Due s → Due (observe_terminal_turn id s)
  unfolding observe_terminal_turn
  observe-Due id s h = elim (Option-cases (lookup terminal_key k s.terminals)) [
    | inl absent ↦ ground (arith, absent)
    | inr (t, there) ↦ ground (arith, there, h, count_of-add t.turn_id id s.observers)
  ]

  pub release-Due : (id : String) (s : Turns) → Due s → Due (release_terminal_turn id s)
  unfolding release_terminal_turn
  release-Due id s h = elim (Option-cases (lookup terminal_key k s.terminals)) [
    | inl absent ↦ schedule-Due id (freed id s) (ground (arith, absent))
    | inr (t, there) ↦ go t there (Bool-cases (same id k)) (Bool-cases t.pending_start_response)
  ]
    where
      freed : String → Turns → Turns
      freed j x = record x { observers = release_count j x.observers }

      go :
          (t : Terminal)
          → lookup terminal_key k s.terminals ≡ some t
          → (same id k ≡ true) ⊎ (same id k ≡ false)
          → (t.pending_start_response ≡ true) ⊎ (t.pending_start_response ≡ false)
          → Due (schedule id (freed id s))
      go t there (inl mine) (inr free) =
          subst (λ (j : String). Due (schedule j (freed id s))) (sym ((same_iff id k).0 mine))
            (schedule-itself (freed id s) t there free)
      go t there (inl mine) (inl waits) =
          schedule-Due id (freed id s) (ground (arith, there, h, waits))
      go t there (inr other) p = schedule-Due id (freed id s) (
          ground
            (arith, there, h, other, named t s there, count_of-release t.turn_id id s.observers))

  pub complete-Due : (id status : String) (s : Turns) → Due s → Due (complete_turn id status s)
  unfolding complete_turn
  complete-Due id status s h = elim (Bool-cases (is_pending s || is_observed id s)) [
    | inr neither ↦ rw neither h
    | inl either ↦ rw either (elim (Bool-cases (same id k)) [
      | inl mine ↦ ground (arith, mine, either, lookup-put terminal_key k fresh s.terminals)
      | inr other ↦ elim (Option-cases (lookup terminal_key k s.terminals)) [
        | inl absent ↦ ground (arith, other, absent, lookup-put terminal_key k fresh s.terminals)
        | inr (t, there) ↦
            ground (arith, other, there, h, lookup-put terminal_key k fresh s.terminals)
      ]
    ])
  ]
    where
      fresh : Terminal
      fresh = record {
        turn_id = id;
        status = status;
        pending_start_response = is_pending s;
        serial = s.next_serial;
      }

  pub note-Due : (id : String) (s : Turns) → Due s → Due (note_ended id s)
  unfolding note_ended
  note-Due id s h = elim (Option-cases (lookup terminal_key k s.terminals)) [
    | inl absent ↦ schedule-Due id _ (
        ground (
          arith,
          absent,
          lookup-update terminal_key (at terminal_key id) settled (λ t. refl) k s.terminals,
        ))
    | inr (t, there) ↦ go t there (Bool-cases (same id k))
  ]
    where
      changed : Turns
      changed = record s { terminals = update (at terminal_key id) settled s.terminals }

      go :
          (t : Terminal)
          → lookup terminal_key k s.terminals ≡ some t
          → (same id k ≡ true) ⊎ (same id k ≡ false)
          → Due (schedule id changed)
      go t there (inl mine) =
          subst (λ (j : String). Due (schedule j changed)) (sym ((same_iff id k).0 mine))
            (schedule-itself changed (settled t)
              (ground (
                arith,
                there,
                mine,
                named t s there,
                lookup-update terminal_key (at terminal_key id) settled (λ x. refl) k s.terminals,
              ))
              refl)
      go t there (inr other) = schedule-Due id changed (
          ground (
            arith,
            there,
            h,
            other,
            named t s there,
            lookup-update terminal_key (at terminal_key id) settled (λ x. refl) k s.terminals,
          ))

  has-remove :
      (a b : Timer) (ts : List Timer)
      → is_timer a b ≡ false
      → has_timer b ts ≡ true
      → has_timer b (remove_timer a ts) ≡ true
  unfolding has_timer remove_timer
  has-remove a b [] n h = h
  has-remove a b (t ∷ ts) n h = ground (arith, n, h, has-remove a b ts)

  pub fire-Due : (a : Timer) (s : Turns) → Due s → Due (fire a s)
  unfolding fire
  fire-Due a s h = go (lookup terminal_key a.turn_id s.terminals) refl
    where
      go :
          (o : Option Terminal)
          → lookup terminal_key a.turn_id s.terminals ≡ o
          → Due (fire_found a.serial o (without_timer a s))
      go none e = elim (Option-cases (lookup terminal_key k s.terminals)) [
        | inl absent ↦ ground (arith, absent)
        | inr (t, there) ↦
            ground (arith, there, e, h, named t s there, has-remove a (timer_of t) s.timers)
      ]
      go (some x) e = elim (Option-cases (lookup terminal_key k s.terminals)) [
        | inl absent ↦
            ground (arith, absent, lookup-delete_key terminal_key k x.turn_id s.terminals)
        | inr (t, there) ↦ ground (
          arith,
          there,
          e,
          h,
          named t s there,
          found-key terminal_key a.turn_id x s.terminals e,
          has-remove a (timer_of t) s.timers,
          lookup-delete_key terminal_key k x.turn_id s.terminals,
        )
      ]
