-- ===== src/Queue/Service.antt =====
-- The operations of `QueueService` in apps/agent/src/v2/services/queue-service.ts. `runtimeGate` runs
-- one dispatch or steer at a time; the record that a dispatch starts from may be out of date. A dispatch
-- and a steer end here with the claim of a delivery; what `#deliver` does with it comes later.
use codex_everywhere.Prelude.{
  ℕ, Bool, false, Option, none, some, String, same, not, ◌||◌, if◌then◌else◌,
}
use codex_everywhere.Queue.Rows.{
  DeliveryOperation, turn_start, turn_steer, Database, QueueRecord, DeliveryIdentity,
  ClaimedDelivery, state_conflict, Result, ok, err,
}
use codex_everywhere.Queue.Items.{transaction, pause, get}
use codex_everywhere.Queue.Claims.{ClaimInput, claim}
use codex_everywhere.Queue.Repository.Reads.{next_pending}
use codex_everywhere.Queue.Delivery.{
  DeliveryState, changed, World, queue_state_conflict, steer_unavailable, not_allowed, lease_failed,
  workspace_changed, repository, Answer, returned, thrown, emit, with_db, filed, delivery_event,
}

pub data LeaseState : Type 0 where
  idle running waiting_input failed : LeaseState

-- What `synchronize` returns of the thread.
pub record Snapshot : Type 0 where
  pub workspace_path : String
  pub state : LeaseState
  pub current_turn_id : Option String
  pub named : Bool

-- What the service meets outside the repository while it handles one request.
pub record Surroundings : Type 0 where
  pub allowed : Bool
  pub leased : Bool
  pub snapshot : Option Snapshot
  pub authorize : String → Option String
  pub pause_durable : Bool
  pub pause_time : ℕ
  pub claim_durable : Bool
  pub claim_time : ℕ
  pub client_user_message_id : String

-- A claimed delivery, as `#deliver` is called with it.
pub record Sending : Type 0 where
  pub item : QueueRecord
  pub identity : DeliveryIdentity
  pub expected : Option String
  pub eligible : Bool

-- `#assertWorkspaceUnchanged` does not throw.
abbrev pub same_path : Option String → Option String → Bool
same_path (some a) (some b) = same a b
same_path _ _ = false

abbrev pub workspace_unchanged : Surroundings → QueueRecord → Snapshot → Bool
workspace_unchanged s item snapshot =
    same_path (s.authorize item.workspace_path) (s.authorize snapshot.workspace_path)

abbrev pub paused_answer : World → Database × Result QueueRecord → World × Answer (Option Sending)
paused_answer w (db, err e) = (with_db db w, thrown (repository e))
paused_answer w (db, ok r) =
    (delivery_event r DeliveryState.paused (emit (changed r) (with_db db w)), returned none)

-- The item is set aside; if it has moved on meanwhile, the conflict is thrown.
unfoldable pub pause_item : Surroundings → QueueRecord → World → World × Answer (Option Sending)
pause_item s current w =
    paused_answer (filed s.pause_durable (pause current.id s.pause_time w.db) w)
      (transaction s.pause_durable (pause current.id s.pause_time) w.db)

abbrev pub claim_of : Surroundings → QueueRecord → DeliveryOperation → Option String → ClaimInput
claim_of s current operation replacement = record {
  item_id = current.id;
  expected_revision = current.revision;
  operation = operation;
  replacement_text = replacement;
  client_user_message_id = s.client_user_message_id;
  now = s.claim_time;
}

abbrev pub to_send {ℓ} : {A : Type ℓ} → (Sending → A) → World × Sending → World × Answer A
to_send f (w, x) = (w, returned (f x))

-- The claim is granted: the delivery is announced, and `#deliver` follows.
abbrev pub deliver_claimed :
    Surroundings → Snapshot → Option String → World → Database → ClaimedDelivery → World × Sending
deliver_claimed s snapshot expected w db c = (
  delivery_event c.item DeliveryState.delivering (with_db db w),
  record {
    item = c.item;
    identity = c.identity;
    expected = expected;
    eligible = not snapshot.named;
  },
)

abbrev pub dispatch_claimed :
    Surroundings
    → Snapshot
    → World
    → Database × Result ClaimedDelivery
    → World × Answer (Option Sending)
dispatch_claimed s snapshot w (db, err (state_conflict id)) = (with_db db w, returned none)
dispatch_claimed s snapshot w (db, err e) = (with_db db w, thrown (repository e))
dispatch_claimed s snapshot w (db, ok c) = to_send some (deliver_claimed s snapshot none w db c)

abbrev pub dispatch_claim :
    Surroundings → Snapshot → QueueRecord → World → World × Answer (Option Sending)
dispatch_claim s snapshot current w =
    dispatch_claimed s snapshot
      (filed s.claim_durable (claim (claim_of s current turn_start none) w.db) w)
      (transaction s.claim_durable (claim (claim_of s current turn_start none)) w.db)

abbrev pub dispatch_state :
    LeaseState → Surroundings → Snapshot → QueueRecord → World → World × Answer (Option Sending)
dispatch_state running s snapshot current w = (w, returned none)
dispatch_state waiting_input s snapshot current w = (w, returned none)
dispatch_state failed s snapshot current w = pause_item s current w
dispatch_state idle s snapshot current w = dispatch_claim s snapshot current w

abbrev pub dispatch_snapshot :
    Option Snapshot → Surroundings → QueueRecord → World → World × Answer (Option Sending)
dispatch_snapshot none s current w = (w, returned none)
dispatch_snapshot (some snapshot) s current w =
    if workspace_unchanged s current snapshot
    then dispatch_state snapshot.state s snapshot current w
    else pause_item s current w

-- `#dispatchPending`, up to `#deliver`.
unfoldable pub dispatch_pending :
    Surroundings → QueueRecord → World → World × Answer (Option Sending)
dispatch_pending s current w =
    if not s.allowed
    then pause_item s current w
    else if not s.leased
    then (w, thrown lease_failed)
    else dispatch_snapshot s.snapshot s current w

abbrev pub dispatch_read :
    Surroundings → World → Result (Option QueueRecord) → World × Answer (Option Sending)
dispatch_read s w (err e) = (w, thrown (repository e))
dispatch_read s w (ok none) = (w, returned none)
dispatch_read s w (ok (some current)) = dispatch_pending s current w

-- `dispatchOnce` where no dispatch is running: while one is, its promise is returned.
unfoldable pub dispatch_once : Surroundings → Bool → World → World × Answer (Option Sending)
unfolding dispatch_pending
dispatch_once s closed w =
    if not w.started || closed then (w, returned none) else dispatch_read s w (next_pending w.db)

abbrev pub unavailable : World × Answer Sending → World × Answer Sending
unavailable (w, thrown (repository (state_conflict id))) = (w, thrown queue_state_conflict)
unavailable (w, a) = (w, a)

abbrev pub steer_claimed :
    Surroundings
    → Snapshot
    → String
    → World
    → Database × Result ClaimedDelivery
    → World × Answer Sending
steer_claimed s snapshot t w (db, err e) = (with_db db w, thrown (repository e))
steer_claimed s snapshot t w (db, ok c) =
    to_send (λ x. x) (deliver_claimed s snapshot (some t) w db c)

abbrev pub steer_turn :
    LeaseState
    → Option String
    → Surroundings
    → Snapshot
    → QueueRecord
    → String
    → World
    → World × Answer Sending
steer_turn running (some t) s snapshot current text w =
    if workspace_unchanged s current snapshot
    then steer_claimed s snapshot t
        (filed s.claim_durable (claim (claim_of s current turn_steer (some text)) w.db) w)
        (transaction s.claim_durable (claim (claim_of s current turn_steer (some text))) w.db)
    else (w, thrown workspace_changed)
steer_turn _ _ s snapshot current text w = (w, thrown steer_unavailable)

abbrev pub steer_snapshot :
    Option Snapshot → Surroundings → QueueRecord → String → World → World × Answer Sending
steer_snapshot none s current text w = (w, thrown lease_failed)
steer_snapshot (some snapshot) s current text w =
    steer_turn snapshot.state snapshot.current_turn_id s snapshot current text w

abbrev pub steer_read :
    Surroundings → String → World → Result (Option QueueRecord) → World × Answer Sending
steer_read s text w (err e) = (w, thrown (repository e))
steer_read s text w (ok none) = (w, thrown queue_state_conflict)
steer_read s text w (ok (some current)) =
    if not s.allowed
    then (w, thrown not_allowed)
    else if not s.leased
    then (w, thrown lease_failed)
    else unavailable (steer_snapshot s.snapshot s current text w)

-- `steer`, up to `#deliver`: the active turn gets the replacement text.
unfoldable pub steer : Surroundings → String → String → World → World × Answer Sending
steer s id text w = steer_read s text w (get id w.db)
