-- ===== src/Queue/Delivery.antt =====
-- `#deliver` and `#markIndeterminate` of apps/agent/src/v2/services/queue-service.ts: the one place
-- where the Queue calls app-server. What app-server answers, and which files could be written, are
-- arguments; what the service emits and asks of app-server is a log, newest first.
pub mod Outcome
pub mod Answers
use codex_everywhere.Prelude.{
  ℕ, Bool, true, false, List, ◌∷◌, Option, none, some, String, same, ◌&&◌, ◌||◌, if◌then◌else◌,
}
use codex_everywhere.Queue.Rows.{
  DeliveryOperation, turn_start, turn_steer, RecordStatus, Database, QueueRecord, DeliveryIdentity,
  Error, Result, ok, err, is_status,
}
use codex_everywhere.Queue.Items.{transaction, stored, get}
use codex_everywhere.Queue.Outcomes.{complete, mark_indeterminate}

pub data DeliveryState : Type 0 where
  delivering completed indeterminate paused : DeliveryState

pub data Effect : Type 0 where
  changed : QueueRecord → Effect
  removed : String → Effect
  delivery : String → String → DeliveryState → Effect
  -- turn/start in a working directory, or turn/steer of a turn, with the text of the item.
  start_requested : DeliveryIdentity → String → String → Effect
  steer_requested : DeliveryIdentity → String → String → Effect
  turn_noted : String → Effect
  title_scheduled : String → String → Effect

-- The open database, what its file holds, and what was emitted and asked.
pub record World : Type 0 where
  pub db : Database
  pub disk : Database
  pub log : List Effect
  pub started : Bool

pub data ServiceError : Type 0 where
  queue_state_conflict outcome_unknown steer_unavailable not_allowed lease_failed
        workspace_changed :
      ServiceError
  scope_closed item_disappeared no_active_turn : ServiceError
  repository : Error → ServiceError

pub data Answer {ℓ} (A : Type ℓ) : Type ℓ where
  returned : A → Answer A
  thrown : ServiceError → Answer A

-- What app-server answers to turn/start or turn/steer, after `responseTurnId`.
pub data Reply : Type 0 where
  rejected invalid_response : Reply
  turn : String → Reply

-- The circumstances of one delivery: whether the lease is open when it begins, and what follows.
pub record Delivering : Type 0 where
  pub lease_open : Bool
  pub reply : Reply
  pub complete_durable : Bool
  pub complete_time : ℕ
  pub mark_durable : Bool
  pub mark_time : ℕ

abbrev pub emit : Effect → World → World
emit e w = record w { log = e ∷ w.log }

abbrev pub with_db : Database → World → World
with_db db w = record w { db = db }

abbrev pub delivery_event : QueueRecord → DeliveryState → World → World
delivery_event item state = emit (delivery item.id item.thread_id state)

-- What a transaction leaves in the file.
abbrev pub filed {ℓ} : {A : Type ℓ} → Bool → Result (Database × A) → World → World
filed durable m w = record w { disk = stored durable m w.disk }

-- Both `catch` blocks of `#deliver` end so.
abbrev pub repaired : QueueRecord → World → World × Answer QueueRecord
repaired r w =
    if is_status r.status RecordStatus.completed
    then (delivery_event r DeliveryState.completed (emit (changed r) w), returned r)
    else (delivery_event r DeliveryState.indeterminate (emit (changed r) w), thrown outcome_unknown)

abbrev pub repaired_read : World → Result (Option QueueRecord) → World × Answer QueueRecord
repaired_read w (err e) = (w, thrown (repository e))
repaired_read w (ok none) = (w, thrown item_disappeared)
repaired_read w (ok (some r)) = repaired r w

abbrev pub repaired_mark :
    String → World → Database × Result QueueRecord → World × Answer QueueRecord
repaired_mark id w (db, ok r) = repaired r (with_db db w)
repaired_mark id w (db, err e) = repaired_read (with_db db w) (get id db)

-- `#markIndeterminate`, and what follows it.
unfoldable pub settle_unknown : DeliveryIdentity → Delivering → World → World × Answer QueueRecord
settle_unknown identity d w =
    repaired_mark identity.queue_item_id
      (filed d.mark_durable (mark_indeterminate identity d.mark_time w.db) w)
      (transaction d.mark_durable (mark_indeterminate identity d.mark_time) w.db)

-- The request, after which the outcome is unknown until it is settled.
abbrev pub requested :
    DeliveryOperation → QueueRecord → DeliveryIdentity → Option String → World → World
requested turn_start item identity expected w =
    emit (start_requested identity item.workspace_path item.text) w
requested turn_steer item identity (some expected) w =
    emit (steer_requested identity expected item.text) w
requested turn_steer item identity none w = w

-- The turn that the reply names. An empty turn ID is refused by `responseTurnId` for turn/steer, and
-- by `noteTurnStarted` for turn/start; a steer without an active turn throws before it asks.
abbrev pub turn_of : Reply → Option String
turn_of rejected = none
turn_of invalid_response = none
turn_of (turn t) = if same t "" then none else some t

abbrev pub accepted_turn : DeliveryOperation → Option String → Reply → Option String
accepted_turn turn_start expected reply = turn_of reply
accepted_turn turn_steer (some expected) reply = turn_of reply
accepted_turn turn_steer none reply = none

abbrev pub noted : DeliveryOperation → String → World → World
noted turn_start t w = emit (turn_noted t) w
noted turn_steer t w = w

abbrev pub titled : Bool → String → String → World → World
titled true t text w = emit (title_scheduled t text) w
titled false t text w = w

abbrev pub committed :
    DeliveryIdentity
    → Delivering
    → World
    → Database × Result QueueRecord
    → World × Answer QueueRecord
committed identity d w (db, ok r) =
    (delivery_event r DeliveryState.completed (emit (changed r) (with_db db w)), returned r)
committed identity d w (db, err e) = settle_unknown identity d (with_db db w)

abbrev pub answered :
    QueueRecord
    → DeliveryIdentity
    → Bool
    → Delivering
    → World
    → Option String
    → World × Answer QueueRecord
answered item identity eligible d w none = settle_unknown identity d w
answered item identity eligible d w (some t) =
    let w' = titled eligible t item.text (noted identity.operation t w) in
    committed identity d (filed d.complete_durable (complete identity t d.complete_time w'.db) w')
      (transaction d.complete_durable (complete identity t d.complete_time) w'.db)

abbrev pub is_start : DeliveryOperation → Bool
is_start turn_start = true
is_start turn_steer = false

abbrev pub is_some {ℓ} : {A : Type ℓ} → Option A → Bool
is_some none = false
is_some (some a) = true

-- `#deliver` observes the lease before its first `try`: the start response of a turn/start, and the
-- terminal turn of a steer that may get a title.
abbrev pub observes : DeliveryOperation → Bool → Option String → Bool
observes operation eligible expected = is_start operation || eligible && is_some expected

-- By whether the lease is open, and whether it is observed.
abbrev pub deliver_open :
    Bool
    → Bool
    → QueueRecord
    → DeliveryIdentity
    → Option String
    → Bool
    → Delivering
    → World
    → World × Answer QueueRecord
deliver_open true _ item identity expected eligible d w =
    answered item identity eligible d (requested identity.operation item identity expected w)
      (accepted_turn identity.operation expected d.reply)
deliver_open false true item identity expected eligible d w = (w, thrown lease_failed)
deliver_open false false item identity expected eligible d w = settle_unknown identity d w

unfoldable pub deliver :
    QueueRecord
    → DeliveryIdentity
    → Option String
    → Bool
    → Delivering
    → World
    → World × Answer QueueRecord
unfolding settle_unknown
deliver item identity expected eligible d w =
    deliver_open d.lease_open (observes identity.operation eligible expected) item identity expected
      eligible d w
