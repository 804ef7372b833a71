-- ===== src/Queue/Rows.antt =====
-- The tables and records of apps/agent/src/v2/repositories/queue-repository.ts, and its reads.
-- A time is the number of milliseconds that its ISO text stands for: the texts are compared only,
-- and all of them are written by `toISOString`.
use Prim.Native.Nat.{Ordering}
use Prim.Native.String.{compare}
use codex_everywhere.Prelude.{
  ℕ, Bool, true, false, ◌&&◌, ◌||◌, List, Option, none, some, String, same, ltb, ◌==◌,
  if◌then◌else◌,
}
use codex_everywhere.Table.{lookup}

pub data DeliveryOperation : Type 0 where
  turn_start turn_steer : DeliveryOperation

pub data RecordStatus : Type 0 where
  pending paused delivering completed indeterminate : RecordStatus

-- The CHECK constraint on `queue_delivery_claims.outcome`, which may also be NULL.
pub data Outcome : Type 0 where
  completed indeterminate abandoned : Outcome

pub data Disposition : Type 0 where
  retry dismiss : Disposition

pub data IndeterminateReason : Type 0 where
  crossed_boundary incomplete_claim : IndeterminateReason

-- `requestJson`: the stored text is the JSON of a version and the message.
pub record Request : Type 0 where
  pub version : ℕ
  pub text : String

pub record ItemRow : Type 0 where
  pub id : String
  pub workspace_path : String
  pub thread_id : String
  pub request : Request
  pub status : RecordStatus
  pub revision : ℕ
  pub created_at : ℕ
  pub updated_at : ℕ

pub record ClaimRow : Type 0 where
  pub queue_item_id : String
  pub operation : DeliveryOperation
  pub thread_id : String
  pub client_user_message_id : String
  pub outcome : Option Outcome
  pub turn_id : Option String
  pub created_at : ℕ
  pub completed_at : Option ℕ

pub record AuditRow : Type 0 where
  pub kind : Disposition
  pub subject_id : String
  pub created_at : ℕ

pub record Database : Type 0 where
  pub items : List ItemRow
  pub claims : List ClaimRow
  pub audit : List AuditRow

pub record QueueRecord : Type 0 where
  pub id : String
  pub workspace_path : String
  pub thread_id : String
  pub text : String
  pub status : RecordStatus
  pub revision : ℕ
  pub created_at : ℕ
  pub updated_at : ℕ
  pub indeterminate_reason : Option IndeterminateReason

pub record DeliveryIdentity : Type 0 where
  pub queue_item_id : String
  pub operation : DeliveryOperation
  pub thread_id : String
  pub client_user_message_id : String

pub record ClaimedDelivery : Type 0 where
  pub item : QueueRecord
  pub identity : DeliveryIdentity

-- What a repository method throws.
pub data Error : Type 0 where
  state_conflict : String → Error
  constraint_failed disappeared invalid_request no_turn_id storage_failed : Error

pub data Result {ℓ} (A : Type ℓ) : Type ℓ where
  ok : A → Result A
  err : Error → Result A

infixl 5 ◌>>=◌
abbrev pub ◌>>=◌ {ℓ κ} : {A : Type ℓ} {B : Type κ} → Result A → (A → Result B) → Result B
ok a >>= f = f a
err e >>= f = err e

pub RecordStatus-discrete : Discrete RecordStatus
RecordStatus-discrete = hlevel

abbrev pub is_status : RecordStatus → RecordStatus → Bool
is_status pending pending = true
is_status paused paused = true
is_status delivering delivering = true
is_status completed completed = true
is_status indeterminate indeterminate = true
is_status _ _ = false

abbrev pub same_operation : DeliveryOperation → DeliveryOperation → Bool
same_operation turn_start turn_start = true
same_operation turn_steer turn_steer = true
same_operation _ _ = false

abbrev pub item_id : ItemRow → String
item_id r = r.id

abbrev pub claim_id : ClaimRow → String
claim_id c = c.queue_item_id

unfoldable pub request_json : String → Request
request_json value = record { version = 1; text = value }

unfoldable pub parse_request_json : Request → Result String
parse_request_json r = if r.version == 1 then ok r.text else err invalid_request

abbrev pub outcome_of : Option ClaimRow → Option Outcome
outcome_of none = none
outcome_of (some c) = c.outcome

-- The reason that `parseQueueRow` adds to an indeterminate item.
unfoldable pub reason_of : RecordStatus → Option Outcome → Option IndeterminateReason
reason_of indeterminate (some indeterminate) = some crossed_boundary
reason_of indeterminate _ = some incomplete_claim
reason_of _ _ = none

-- QUEUE_SELECT joins an item with its claim; `parseQueueRow` reads the joined row.
unfoldable pub parse_queue_row : Option ClaimRow → ItemRow → Result QueueRecord
unfolding parse_request_json reason_of
parse_queue_row claim row = do
  message ← parse_request_json row.request
  ok (record {
    id = row.id;
    workspace_path = row.workspace_path;
    thread_id = row.thread_id;
    text = message;
    status = row.status;
    revision = row.revision;
    created_at = row.created_at;
    updated_at = row.updated_at;
    indeterminate_reason = reason_of row.status (outcome_of claim);
  })

unfoldable pub read_claim : Database → String → Option ClaimRow
read_claim db id = lookup claim_id id db.claims

unfoldable pub join : Database → ItemRow → Result QueueRecord
unfolding parse_queue_row read_claim
join db row = parse_queue_row (read_claim db row.id) row

-- `readQueue`: undefined if there is no such item.
unfoldable pub read_queue : Database → String → Result (Option QueueRecord)
unfolding join
read_queue db id = elim (lookup item_id id db.items) [
  | none ↦ ok none
  | some row ↦ do r ← join db row; ok (some r)
]

abbrev pub required : Option QueueRecord → Result QueueRecord
required none = err disappeared
required (some r) = ok r

unfoldable pub required_queue : Database → String → Result QueueRecord
unfolding read_queue
required_queue db id = read_queue db id >>= required

unfoldable pub claim_matches : ClaimRow → DeliveryIdentity → Bool
claim_matches row identity =
    same_operation row.operation identity.operation
    && same row.thread_id identity.thread_id
    && same row.client_user_message_id identity.client_user_message_id

abbrev pub text_before : String → String → Bool
text_before s t = elim (compare s t) [ Ordering.lt ↦ true | _ ↦ false ]

-- ORDER BY q.created_at, q.id.
unfoldable pub precedes : ItemRow → ItemRow → Bool
precedes a b =
    ltb a.created_at b.created_at || (a.created_at == b.created_at && text_before a.id b.id)
