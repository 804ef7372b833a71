-- ===== src/Tests/Access.antt =====
-- A limit of two attempts in ten milliseconds and a service with one ticket; and the theorems on them.
use codex_everywhere.Prelude.{
  ◌≤◌, ◌≡◌, refl, List, [], ◌∷◌, ℕ, false, none, some, String, ltb, arith, utf16_length,
  text_discrete, ◌+◌, if◌then◌else◌,
}
use codex_everywhere.Table.{find}
use codex_everywhere.Access.RateLimiter.{
  password, recovery, Policies, attempts_of, is_recent, consume, recent,
}
use codex_everywhere.Access.RateLimiter.Window.{accepted_in, within}
use codex_everywhere.Access.RateLimiter.Exact.{Attempt, run, observe, fresh, passes, run-exact}
use codex_everywhere.Access.Tickets.{
  Binding, Tickets, Device, verified, issue, verify, token, revoke_all, revoke_device,
  validate_binding, same_bytes,
}
use codex_everywhere.Access.Tickets.Revoked
use codex_everywhere.Access.Tickets.Revoked.{
  Step, issues, revokes, times_out, revoke_all-verify, revoke_device-verify,
}
use codex_everywhere.Access.Tickets.Fresh.{device_of, issue-verify}

abbrev policies : Policies
policies = record {
  of_password = record { limit = 2; window_ms = 10 };
  of_recovery = record { limit = 1; window_ms = 10 };
}

abbrev attempts : List Attempt
attempts = (password, 1) ∷ (password, 4) ∷ (recovery, 5) ∷ (password, 6) ∷ (password, 11) ∷ []

-- The fourth is let through, as the first has left the window.
three_accepted : (run attempts (fresh policies)).accepted.passwords ≡ 11 ∷ 4 ∷ 1 ∷ []
unfolding run observe consume recent
three_accepted = refl

run-exact_example :
    let after = run attempts (fresh policies) in
    (accepted_in (within 10 3) (attempts_of after.accepted password) ≤ 2)
    × (passes (consume password 12 after.limiter)
        ≡ ltb (accepted_in (is_recent 10 12) (attempts_of after.accepted password)) 2)
run-exact_example =
    run-exact policies attempts password 12 3
      (omega arith, (omega arith, (omega arith, (omega arith, (omega arith, tt))))) (omega arith)

abbrev key32 : List ℕ
key32 =
    1 ∷ 2 ∷ 3 ∷ 4 ∷ 5 ∷ 6 ∷ 7 ∷ 8 ∷ 9 ∷ 10 ∷ 11 ∷ 12 ∷ 13 ∷ 14 ∷ 15 ∷ 16 ∷ 17 ∷ 18 ∷ 19 ∷ 20 ∷ 21
    ∷ 22 ∷ 23 ∷ 24 ∷ 25 ∷ 26 ∷ 27 ∷ 28 ∷ 29 ∷ 30 ∷ 31 ∷ 32 ∷ []

abbrev token_a : String
token_a = "aaaaaaaaaaaaaaaaaaaaaaaaaaaaaaaaaaaaaaaaaaa"

abbrev token_b : String
token_b = "bbbbbbbbbbbbbbbbbbbbbbbbbbbbbbbbbbbbbbbbbbb"

abbrev phone : Device
phone = record { id = "phone"; public_key = key32 }

abbrev bound : Binding
bound = record {
  device_id = "phone";
  device_public_key = key32;
  principal_id = "owner";
  temporary = false;
}

abbrev no_tickets : Tickets
no_tickets = record { ttl_ms = 1000; tickets = []; generation = 0; next_serial = 0; closed = false }

abbrev one_ticket : Tickets
one_ticket = (issue (λ t. t) bound token_a 5 no_tickets).0

ticket_verified : verify (λ t. t) token_a phone 1004 one_ticket ≡ verified (some bound)
unfolding verify issue validate_binding same_bytes utf16_length find text_discrete
ticket_verified = refl

ticket_expired : verify (λ t. t) token_a phone 1005 one_ticket ≡ verified none
unfolding verify issue validate_binding same_bytes utf16_length find text_discrete
ticket_expired = refl

revoke_all-verify_example :
    verify
      (λ t. t)
      token_a
      phone
      7
      (Revoked.run
        (λ t. t)
        (issues bound token_b 6 ∷ revokes "tablet" ∷ [])
        (revoke_all one_ticket))
    ≡ verified none
unfolding text_discrete issue
revoke_all-verify_example =
    revoke_all-verify (λ t. t) token_a phone 7 (issues bound token_b 6 ∷ revokes "tablet" ∷ [])
      one_ticket (refl, (tt, tt))

revoke_device-verify_example :
    verify
      (λ t. t)
      token_a
      phone
      7
      (Revoked.run
        (λ t. t)
        (revokes "tablet" ∷ times_out token_b 3 ∷ [])
        (revoke_device "phone" one_ticket))
    ≡ verified none
unfolding issue
revoke_device-verify_example =
    revoke_device-verify (λ t. t) token_a phone 7 (revokes "tablet" ∷ times_out token_b 3 ∷ [])
      one_ticket (tt, (tt, tt))

issue-verify_example :
    let after = issue (λ t. t) bound token_a 5 no_tickets in
    (after.1 ≡ token token_a)
    × (verify (λ t. t) token_a (device_of bound) 900 after.0
        ≡ verified (if ltb 900 (5 + 1000) then some bound else none))
unfolding validate_binding utf16_length text_discrete
issue-verify_example =
    issue-verify (λ t. t) token_a bound 5 900 no_tickets refl refl (omega arith) (omega arith)
