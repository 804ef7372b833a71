-- ===== src/Access/Tickets/Revoked.antt =====
-- `revokeAll` and `revokeDevice` of apps/agent/src/v2/services/session-ticket-service.ts, and what
-- comes after.
use codex_everywhere.Prelude.{
  ℕ, ◌≡◌, refl, Bool, false, List, [], ◌∷◌, Option, none, some, String, same, if_either,
  if◌then◌else◌, All, arith,
}
use codex_everywhere.Table.{delete, at, lookup, find, modified}
use codex_everywhere.Access.Tickets.{
  Binding, Ticket, Tickets, Device, TicketError, Issued, key_of, validate_binding, of_device,
  verify_found, verified, throws, scope_closed, issue_valid, issue, verify, revoke_all,
  revoke_device, is_serial, time_out,
}

pub data Step : Type 0 where
  issues : Binding → String → ℕ → Step
  revokes_all : Step
  revokes : String → Step
  times_out : String → ℕ → Step

deleted-none :
    (k : String) (p : Ticket → Bool) (ts : List Ticket)
    → lookup key_of k ts ≡ none
    → lookup key_of k (delete p ts) ≡ none
unfolding find delete
deleted-none k p [] h = refl
deleted-none k p (t ∷ ts) h = ground (arith, h, deleted-none k p ts)

modified-delete_none :
    (p q : Ticket → Bool) (ts : List Ticket) → modified q ts ≡ 0 → modified q (delete p ts) ≡ 0
unfolding modified delete
modified-delete_none p q [] h = refl
modified-delete_none p q (t ∷ ts) h = ground (arith, h, modified-delete_none p q ts)

modified-delete_self : (p : Ticket → Bool) (ts : List Ticket) → modified p (delete p ts) ≡ 0
unfolding modified delete
modified-delete_self p [] = refl
modified-delete_self p (t ∷ ts) = ground (arith, modified-delete_self p ts)

module _ (token_hash : String → String) where
  unfoldable pub step : Step → Tickets → Tickets
  step (issues b t now) s = (issue token_hash b t now s).0
  step revokes_all s = revoke_all s
  step (revokes id) s = revoke_device id s
  step (times_out key serial) s = time_out key serial s

  unfoldable pub run : List Step → Tickets → Tickets
  unfolding step
  run [] s = s
  run (e ∷ es) s = run es (step e s)

  -- No token with the same hash is issued.
  abbrev pub IsNotReissued : String → Step → Type 0
  IsNotReissued t (issues b u now) = same (token_hash u) (token_hash t) ≡ false
  IsNotReissued t _ = Unit

  step-none :
      (t : String) (e : Step) (s : Tickets)
      → IsNotReissued t e
      → lookup key_of (token_hash t) s.tickets ≡ none
      → lookup key_of (token_hash t) (step e s).tickets ≡ none
  unfolding step issue revoke_all revoke_device time_out find
  step-none t (issues b u now) s n h =
      if_either (λ (r : Tickets × Issued). lookup key_of (token_hash t) r.0.tickets ≡ none) s.closed
        h (go (validate_binding b))
    where
      go :
          (m : Option TicketError)
          → lookup key_of (token_hash t) (issue_valid token_hash b u now s m).0.tickets ≡ none
      go (some x) = h
      go none =
          ground (arith, n, deleted-none (token_hash t) (at key_of (token_hash u)) s.tickets h)
  step-none t revokes_all s n h = refl
  step-none t (revokes id) s n h = deleted-none (token_hash t) (of_device id) s.tickets h
  step-none t (times_out key serial) s n h =
      deleted-none (token_hash t) (is_serial key serial) s.tickets h

  run-none :
      (t : String) (es : List Step) (s : Tickets)
      → All (IsNotReissued t) es
      → lookup key_of (token_hash t) s.tickets ≡ none
      → lookup key_of (token_hash t) (run es s).tickets ≡ none
  unfolding run
  run-none t [] s n h = h
  run-none t (e ∷ es) s n h = run-none t es (step e s) n.1 (step-none t e s n.0 h)

  step-closed : (e : Step) (s : Tickets) → (step e s).closed ≡ s.closed
  unfolding step issue revoke_all revoke_device time_out
  step-closed (issues b u now) s =
      if_either (λ (r : Tickets × Issued). r.0.closed ≡ s.closed) s.closed refl
        (go (validate_binding b))
    where
      go : (m : Option TicketError) → (issue_valid token_hash b u now s m).0.closed ≡ s.closed
      go (some x) = refl
      go none = refl
  step-closed revokes_all s = refl
  step-closed (revokes id) s = refl
  step-closed (times_out key serial) s = refl

  run-closed : (es : List Step) (s : Tickets) → (run es s).closed ≡ s.closed
  unfolding run
  run-closed [] s = refl
  run-closed (e ∷ es) s = ground (arith, run-closed es (step e s), step-closed e s)

  not_found :
      (t : String) (d : Device) (now : ℕ) (s : Tickets)
      → verify_found token_hash t d now s (lookup key_of (token_hash t) s.tickets) ≡ none
      → verify token_hash t d now s ≡ (if s.closed then throws scope_closed else verified none)
  unfolding verify
  not_found t d now s h = ground (arith, h)

  -- After every ticket is revoked, a token whose hash is not issued again gives undefined for every
  -- device at every time (an error where the service is closed), whatever is issued, revoked or
  -- timed out meanwhile.
  pub revoke_all-verify :
      (t : String) (d : Device) (now : ℕ) (es : List Step) (s : Tickets)
      → All (IsNotReissued t) es
      → verify token_hash t d now (run es (revoke_all s))
        ≡ (if s.closed then throws scope_closed else verified none)
  unfolding revoke_all find
  revoke_all-verify t d now es s n = ground (
    arith,
    run-closed es (revoke_all s),
    not_found t d now after (ground (arith, run-none t es (revoke_all s) n refl)),
  )
    where
      after : Tickets
      after = run es (revoke_all s)

  -- No ticket is issued for the device.
  abbrev pub IsNotFor : String → Step → Type 0
  IsNotFor id (issues b u now) = same b.device_id id ≡ false
  IsNotFor id _ = Unit

  step-absent :
      (id : String) (e : Step) (s : Tickets)
      → IsNotFor id e
      → modified (of_device id) s.tickets ≡ 0
      → modified (of_device id) (step e s).tickets ≡ 0
  unfolding step issue revoke_all revoke_device time_out modified
  step-absent id (issues b u now) s n h =
      if_either (λ (r : Tickets × Issued). modified (of_device id) r.0.tickets ≡ 0) s.closed h
        (go (validate_binding b))
    where
      go :
          (m : Option TicketError)
          → modified (of_device id) (issue_valid token_hash b u now s m).0.tickets ≡ 0
      go (some x) = h
      go none =
          ground
            (arith, n, modified-delete_none (at key_of (token_hash u)) (of_device id) s.tickets h)
  step-absent id revokes_all s n h = refl
  step-absent id (revokes other) s n h =
      modified-delete_none (of_device other) (of_device id) s.tickets h
  step-absent id (times_out key serial) s n h =
      modified-delete_none (is_serial key serial) (of_device id) s.tickets h

  run-absent :
      (id : String) (es : List Step) (s : Tickets)
      → All (IsNotFor id) es
      → modified (of_device id) s.tickets ≡ 0
      → modified (of_device id) (run es s).tickets ≡ 0
  unfolding run
  run-absent id [] s n h = h
  run-absent id (e ∷ es) s n h = run-absent id es (step e s) n.1 (step-absent id e s n.0 h)

  absent-rejected :
      (t : String) (d : Device) (now : ℕ) (s : Tickets) (ts : List Ticket)
      → modified (of_device d.id) ts ≡ 0
      → verify_found token_hash t d now s (lookup key_of (token_hash t) ts) ≡ none
  unfolding find modified
  absent-rejected t d now s [] h = refl
  absent-rejected t d now s (r ∷ ts) h = ground (arith, h, absent-rejected t d now s ts)

  -- After the tickets of a device are revoked, every token gives undefined for the device at every
  -- time (an error where the service is closed) while no ticket is issued for it, whatever else is
  -- issued, revoked or timed out meanwhile.
  pub revoke_device-verify :
      (t : String) (d : Device) (now : ℕ) (es : List Step) (s : Tickets)
      → All (IsNotFor d.id) es
      → verify token_hash t d now (run es (revoke_device d.id s))
        ≡ (if s.closed then throws scope_closed else verified none)
  unfolding verify revoke_device
  revoke_device-verify t d now es s n = ground (
    arith,
    run-closed es (revoke_device d.id s),
    not_found t d now after (
        absent-rejected t d now after after.tickets
          (run-absent d.id es (revoke_device d.id s) n gone)),
  )
    where
      after : Tickets
      after = run es (revoke_device d.id s)

      gone : modified (of_device d.id) (revoke_device d.id s).tickets ≡ 0
      gone = modified-delete_self (of_device d.id) s.tickets
