-- ===== src/Queue/Claims.antt =====
-- `claim` of `QueueRepository` in apps/agent/src/v2/repositories/queue-repository.ts: the one step by
-- which an item becomes a delivery.
use codex_everywhere.Prelude.{
  ℕ, Bool, ◌&&◌, ◌||◌, not, [], ◌∷◌, ◌++◌, Option, none, some, String, ◌==◌, if◌then◌else◌,
}
use codex_everywhere.Table.{update, modified, exists, at}
use codex_everywhere.Queue.Rows.{
  DeliveryOperation, turn_start, turn_steer, pending, paused, delivering, ItemRow, ClaimRow,
  Database, QueueRecord, DeliveryIdentity, ClaimedDelivery, state_conflict, constraint_failed,
  Result, ok, err, ◌>>=◌, is_status, item_id, claim_id, request_json, read_queue, required_queue,
}
use codex_everywhere.Queue.Items.{touch}

pub record ClaimInput : Type 0 where
  pub item_id : String
  pub expected_revision : ℕ
  pub operation : DeliveryOperation
  pub replacement_text : Option String
  pub client_user_message_id : String
  pub now : ℕ

-- The guard of `claim` on the record that it read.
abbrev pub eligible : ClaimInput → QueueRecord → Bool
eligible input current = current.revision == input.expected_revision && elim input.operation [
  | turn_start ↦ is_status current.status pending
  | turn_steer ↦ is_status current.status pending || is_status current.status paused
]

abbrev pub text_or : Option String → String → String
text_or none message = message
text_or (some replacement) message = replacement

abbrev pub claim_row : ClaimInput → QueueRecord → ClaimRow
claim_row input current = record {
  queue_item_id = current.id;
  operation = input.operation;
  thread_id = current.thread_id;
  client_user_message_id = input.client_user_message_id;
  outcome = none;
  turn_id = none;
  created_at = input.now;
  completed_at = none;
}

abbrev pub identity_of : ClaimInput → QueueRecord → DeliveryIdentity
identity_of input current = record {
  queue_item_id = current.id;
  operation = input.operation;
  thread_id = current.thread_id;
  client_user_message_id = input.client_user_message_id;
}

abbrev pub claimable : ClaimInput → QueueRecord → ItemRow → Bool
claimable input current r =
    at item_id input.item_id r
    && (r.revision == input.expected_revision && is_status r.status current.status)

abbrev pub deliver_row : ClaimInput → QueueRecord → ItemRow → ItemRow
deliver_row input current r = record (touch delivering input.now r) {
  request = request_json (text_or input.replacement_text current.text);
}

-- The two statements of `claim` after its guard.
unfoldable pub claimed_tables : ClaimInput → QueueRecord → Database → Database
unfolding request_json
claimed_tables input current db = record {
  items = update (claimable input current) (deliver_row input current) db.items;
  claims = db.claims ++ claim_row input current ∷ [];
  audit = db.audit;
}

unfoldable pub claim_current :
    ClaimInput → QueueRecord → Database → Result (Database × ClaimedDelivery)
claim_current input current db =
    let next = claimed_tables input current db in
    if not (modified (claimable input current) db.items == 1)
    then err (state_conflict input.item_id)
    else if exists (at claim_id current.id) db.claims
    then err constraint_failed
    else (required_queue next current.id >>= λ claimed.
        ok (next, record { item = claimed; identity = identity_of input current }))

abbrev pub claim_read :
    ClaimInput → Database → Option QueueRecord → Result (Database × ClaimedDelivery)
claim_read input db none = err (state_conflict input.item_id)
claim_read input db (some current) =
    if eligible input current
    then claim_current input current db
    else err (state_conflict input.item_id)

unfoldable pub claim : ClaimInput → Database → Result (Database × ClaimedDelivery)
unfolding claim_current
claim input db = read_queue db input.item_id >>= claim_read input db
