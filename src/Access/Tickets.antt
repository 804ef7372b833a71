-- ===== src/Access/Tickets.antt =====
-- `SessionTicketService` of apps/agent/src/v2/services/session-ticket-service.ts: reconnect tickets that
-- are bound to a device. The hash of a token, in base64url, is a parameter; the random token is an
-- argument. The identity of a ticket, which its timer compares with `===`, is a number.
pub mod Revoked
pub mod Fresh
use codex_everywhere.Prelude.{
  ℕ, suc, ◌+◌, ◌*◌, Bool, true, false, ◌&&◌, ◌||◌, not, List, [], ◌∷◌, Option, none, some, String,
  same, ltb, leb, ◌==◌, length, is_empty, utf16_length, if◌then◌else◌,
}
use codex_everywhere.Table.{delete, at, lookup}

pub record Binding : Type 0 where
  pub device_id : String
  pub device_public_key : List ℕ
  pub principal_id : String
  pub temporary : Bool

pub record Ticket : Type 0 where
  pub hash : String
  pub binding : Binding
  pub generation : ℕ
  pub expires_at : ℕ
  pub serial : ℕ

pub record Tickets : Type 0 where
  pub ttl_ms : ℕ
  pub tickets : List Ticket
  pub generation : ℕ
  pub next_serial : ℕ
  pub closed : Bool

pub record Device : Type 0 where
  pub id : String
  pub public_key : List ℕ

pub data TicketError : Type 0 where
  scope_closed binding_incomplete device_key_invalid : TicketError

pub data Issued : Type 0 where
  token : String → Issued
  refused : TicketError → Issued

-- `verified none` is `undefined`.
pub data Verified : Type 0 where
  verified : Option Binding → Verified
  throws : TicketError → Verified

abbrev pub key_of : Ticket → String
key_of t = t.hash

unfoldable pub same_bytes : List ℕ → List ℕ → Bool
same_bytes [] [] = true
same_bytes (x ∷ xs) (y ∷ ys) = x == y && same_bytes xs ys
same_bytes _ _ = false

unfoldable pub validate_binding : Binding → Option TicketError
validate_binding b =
    if is_empty b.device_id || is_empty b.principal_id
    then some binding_incomplete
    else if not (length b.device_public_key == 32)
    then some device_key_invalid
    else none

abbrev pub of_device : String → Ticket → Bool
of_device id t = same t.binding.device_id id

module _ (token_hash : String → String) where
  abbrev pub ticket_of : Binding → String → ℕ → Tickets → Ticket
  ticket_of b t now s = record {
    hash = token_hash t;
    binding = b;
    generation = s.generation;
    expires_at = now + s.ttl_ms;
    serial = s.next_serial;
  }

  abbrev pub issue_valid : Binding → String → ℕ → Tickets → Option TicketError → Tickets × Issued
  issue_valid b t now s (some e) = (s, refused e)
  issue_valid b t now s none = (
    record s {
      tickets = ticket_of b t now s ∷ delete (at key_of (token_hash t)) s.tickets;
      next_serial = suc s.next_serial;
    },
    token t,
  )

  unfoldable pub issue : Binding → String → ℕ → Tickets → Tickets × Issued
  unfolding validate_binding
  issue b t now s =
      if s.closed then (s, refused scope_closed) else issue_valid b t now s (validate_binding b)

  abbrev pub is_rejected : String → Device → ℕ → Tickets → Ticket → Bool
  is_rejected t d now s r =
      not (r.generation == s.generation)
      || (leb r.expires_at now
          || (not (same r.binding.device_id d.id)
              || (not (same r.hash (token_hash t))
                  || not (same_bytes r.binding.device_public_key d.public_key))))

  abbrev pub verify_found : String → Device → ℕ → Tickets → Option Ticket → Option Binding
  verify_found t d now s none = none
  verify_found t d now s (some r) = if is_rejected t d now s r then none else some r.binding

  unfoldable pub verify : String → Device → ℕ → Tickets → Verified
  unfolding same_bytes
  verify t d now s =
      if s.closed
      then throws scope_closed
      else if ltb (utf16_length t) 32 || ltb 2048 (utf16_length t)
      then verified none
      else verified (verify_found t d now s (lookup key_of (token_hash t) s.tickets))

unfoldable pub revoke_all : Tickets → Tickets
revoke_all s = record s { generation = suc s.generation; tickets = [] }

unfoldable pub revoke_device : String → Tickets → Tickets
revoke_device id s = record s { tickets = delete (of_device id) s.tickets }

abbrev pub is_serial : String → ℕ → Ticket → Bool
is_serial key serial t = at key_of key t && t.serial == serial

-- The timer of an issued ticket.
unfoldable pub time_out : String → ℕ → Tickets → Tickets
time_out key serial s = record s { tickets = delete (is_serial key serial) s.tickets }
