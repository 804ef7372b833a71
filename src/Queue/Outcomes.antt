-- ===== src/Queue/Outcomes.antt =====
-- The methods of `QueueRepository` in apps/agent/src/v2/repositories/queue-repository.ts that settle a
-- delivery, and the user's disposition of one whose outcome is unknown.
use codex_everywhere.Prelude.{
  ℕ, Bool, true, false, ◌&&◌, not, [], ◌∷◌, ◌++◌, Option, none, some, String, same, ◌==◌,
  if◌then◌else◌,
}
use codex_everywhere.Table.{update, delete, modified, exists, at}
use codex_everywhere.Queue.Rows.{
  RecordStatus, pending, delivering, Outcome, Disposition, retry, dismiss, ItemRow, ClaimRow,
  Database, QueueRecord, DeliveryIdentity, state_conflict, disappeared, no_turn_id, Result, ok, err,
  ◌>>=◌, is_status, item_id, claim_id, read_claim, read_queue, required_queue, claim_matches,
}
use codex_everywhere.Queue.Items.{touch}
use codex_everywhere.Queue.Claims.{claim}

-- WHERE queue_item_id = ? AND operation = ? AND … AND outcome IS NULL.
abbrev pub is_open : Option Outcome → Bool
is_open none = true
is_open (some _) = false

abbrev pub open_claim : DeliveryIdentity → ClaimRow → Bool
open_claim identity c =
    at claim_id identity.queue_item_id c && (claim_matches c identity && is_open c.outcome)

abbrev pub settle : Outcome → Option String → ℕ → ClaimRow → ClaimRow
settle outcome turn_id now c = record c {
  outcome = some outcome;
  turn_id = turn_id;
  completed_at = some now;
}

-- `updateQueueStatus`.
unfoldable pub update_queue_status : String → RecordStatus → ℕ → Database → Result Database
update_queue_status id status now db =
    if modified (at item_id id) db.items == 1
    then ok (record db { items = update (at item_id id) (touch status now) db.items })
    else err disappeared

abbrev pub finish : String → RecordStatus → ℕ → Database → Result (Database × QueueRecord)
finish id status now db =
    update_queue_status id status now db >>= λ next. required_queue next id >>= λ r. ok (next, r)

abbrev pub same_turn : Option String → String → Bool
same_turn none t = false
same_turn (some s) t = same s t

abbrev pub is_outcome : Option Outcome → Outcome → Bool
is_outcome (some Outcome.completed) Outcome.completed = true
is_outcome (some Outcome.indeterminate) Outcome.indeterminate = true
is_outcome (some Outcome.abandoned) Outcome.abandoned = true
is_outcome _ _ = false

abbrev pub already_completed : DeliveryIdentity → String → Option ClaimRow → Bool
already_completed identity turn_id none = false
already_completed identity turn_id (some settled) =
    is_outcome settled.outcome Outcome.completed
    && (same_turn settled.turn_id turn_id && claim_matches settled identity)

abbrev pub if_completed :
    DeliveryIdentity → Database → Option QueueRecord → Result (Database × QueueRecord)
if_completed identity db none = err (state_conflict identity.queue_item_id)
if_completed identity db (some current) =
    if is_status current.status RecordStatus.completed
    then ok (db, current)
    else err (state_conflict identity.queue_item_id)

-- `complete`: a repeated completion with the same turn is answered from the tables.
unfoldable pub complete : DeliveryIdentity → String → ℕ → Database → Result (Database × QueueRecord)
unfolding update_queue_status
complete identity turn_id now db =
    if same turn_id ""
    then err no_turn_id
    else if modified (open_claim identity) db.claims == 1
    then finish identity.queue_item_id RecordStatus.completed now (record db {
      claims = update (open_claim identity) (settle Outcome.completed (some turn_id) now) db.claims;
    })
    else if already_completed identity turn_id (read_claim db identity.queue_item_id)
    then (read_queue db identity.queue_item_id >>= if_completed identity db)
    else err (state_conflict identity.queue_item_id)

abbrev pub mark_read :
    DeliveryIdentity → ℕ → Database → Option ClaimRow → Result (Database × QueueRecord)
mark_read identity now db none = err (state_conflict identity.queue_item_id)
mark_read identity now db (some c) =
    if not (claim_matches c identity)
    then err (state_conflict identity.queue_item_id)
    else if is_outcome c.outcome Outcome.completed
    then (required_queue db identity.queue_item_id >>= λ r. ok (db, r))
    else if is_outcome c.outcome Outcome.indeterminate
    then finish identity.queue_item_id RecordStatus.indeterminate now db
    else err (state_conflict identity.queue_item_id)

-- The UPDATE leaves `turn_id` as it is.
abbrev pub doubt : ℕ → ClaimRow → ClaimRow
doubt now c = record c { outcome = some Outcome.indeterminate; completed_at = some now }

unfoldable pub mark_indeterminate :
    DeliveryIdentity → ℕ → Database → Result (Database × QueueRecord)
unfolding update_queue_status
mark_indeterminate identity now db =
    let next : Database = record db {
      claims = update (open_claim identity) (doubt now) db.claims;
    } in
    mark_read identity now next (read_claim next identity.queue_item_id)

abbrev pub is_delivering : ItemRow → Bool
is_delivering r = is_status r.status delivering

abbrev pub stranded : Database → ClaimRow → Bool
stranded db c =
    is_open c.outcome && exists (λ r. at item_id c.queue_item_id r && is_delivering r) db.items

-- After a restart: what was being delivered has an unknown outcome.
unfoldable pub recover_delivering : ℕ → Database → Result (Database × ℕ)
recover_delivering now db = ok (
  record {
    items = update is_delivering (touch RecordStatus.indeterminate now) db.items;
    claims = update (stranded db) (doubt now) db.claims;
    audit = db.audit;
  },
  modified is_delivering db.items,
)

abbrev pub doubtful : Option QueueRecord → Option ClaimRow → Bool
doubtful none claim = false
doubtful (some current) none = is_status current.status RecordStatus.indeterminate
doubtful (some current) (some c) =
    is_status current.status RecordStatus.indeterminate
    && is_outcome c.outcome Outcome.indeterminate

abbrev pub abandon : ℕ → ClaimRow → ClaimRow
abandon now c = record c { outcome = some Outcome.abandoned; completed_at = some now }

-- What the user's disposition does to the claim, and the status that it gives the item.
abbrev pub disposed : Disposition → String → ℕ → Database → Database
disposed retry id now db = record db { claims = delete (at claim_id id) db.claims }
disposed dismiss id now db = record db {
  claims =
      update (λ c. at claim_id id c && is_outcome c.outcome Outcome.indeterminate) (abandon now)
        db.claims;
}

abbrev pub disposed_status : Disposition → RecordStatus
disposed_status retry = pending
disposed_status dismiss = RecordStatus.completed

unfoldable pub acknowledge_indeterminate :
    String → Disposition → ℕ → Database → Result (Database × QueueRecord)
unfolding update_queue_status
acknowledge_indeterminate id disposition now db = read_queue db id >>= λ current.
    if doubtful current (read_claim db id)
    then (update_queue_status id (disposed_status disposition) now (disposed disposition id now db)
        >>= λ next.
            let noted : Database = record next {
              audit =
                  db.audit ++ record { kind = disposition; subject_id = id; created_at = now } ∷ [];
            } in
            required_queue noted id >>= λ r. ok (noted, r))
    else err (state_conflict id)
