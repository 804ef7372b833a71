-- ===== src/Access/Tickets/Fresh.antt =====
-- What a ticket that was just issued gives, and until when.
use codex_everywhere.Prelude.{
  ℕ, ◌+◌, ◌≤◌, ◌≡◌, refl, true, false, List, [], ◌∷◌, none, some, String, if◌then◌else◌, ltb,
  utf16_length, arith,
}
use codex_everywhere.Table.{find}
use codex_everywhere.Access.Tickets.{
  Binding, Tickets, Device, token, same_bytes, validate_binding, ticket_of, issue, verify,
  verify_found, verified,
}

same_bytes_refl : (xs : List ℕ) → same_bytes xs xs ≡ true
unfolding same_bytes
same_bytes_refl [] = refl
same_bytes_refl (x ∷ xs) = ground (arith, same_bytes_refl xs)

abbrev pub device_of : Binding → Device
device_of b = record { id = b.device_id; public_key = b.device_public_key }

module _ (token_hash : String → String) where
  verify_fresh :
      (t : String) (b : Binding) (now later : ℕ) (s : Tickets)
      → verify_found token_hash t (device_of b) later s (some (ticket_of token_hash b t now s))
        ≡ (if ltb later (now + s.ttl_ms) then some b else none)
  verify_fresh t b now later s = ground (arith, same_bytes_refl b.device_public_key)

  -- An open service issues a token for a valid binding, and the device of the binding gets the binding back
  -- with it just until its lifetime is over.
  pub issue-verify :
      (t : String) (b : Binding) (now later : ℕ) (s : Tickets)
      → s.closed ≡ false
      → validate_binding b ≡ none
      → 32 ≤ utf16_length t
      → utf16_length t ≤ 2048
      → (let after = issue token_hash b t now s in
          (after.1 ≡ token t)
          × (verify token_hash t (device_of b) later after.0
              ≡ verified (if ltb later (now + s.ttl_ms) then some b else none)))
  unfolding issue verify find
  issue-verify t b now later s c v l u = ground (arith, c, v, l, u, verify_fresh t b now later s)
