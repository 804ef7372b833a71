-- ===== src/Queue/Requests.antt =====
-- The other methods of `QueueService` in apps/agent/src/v2/services/queue-service.ts, and all of them
-- as the requests that the Agent serves. A dispatch or a steer ends with its claim; the two halves of
-- `#deliver`, the request and its answer, are steps of their own, and the Agent may stop between any
-- two steps.
pub mod Covered
pub mod Begun
pub mod Single
pub mod Once
use codex_everywhere.Prelude.{
  ℕ, ◌-◌, ◌==◌, Bool, true, false, List, [], ◌∷◌, Option, none, some, String, not, if◌then◌else◌,
}
use codex_everywhere.Queue.Rows.{
  Disposition, Database, QueueRecord, Error, state_conflict, Result, ok, err,
}
use codex_everywhere.Queue.Items.{transaction, NewItem, add, remove}
use codex_everywhere.Queue.Outcomes.{recover_delivering, acknowledge_indeterminate}
use codex_everywhere.Queue.Repository.Reads.{ListOptions, list}
use codex_everywhere.Queue.Delivery.{
  changed, removed, World, ServiceError, queue_state_conflict, not_allowed, lease_failed,
  scope_closed, workspace_changed, repository, Answer, returned, thrown, emit, with_db, filed,
  Delivering, deliver_open, observes, requested, answered, accepted_turn,
}
use codex_everywhere.Queue.Service.{Snapshot, Surroundings, Sending, dispatch_once, steer}

abbrev pub started_with : World → Database × Result ℕ → World × Answer ℕ
started_with w (db, err e) = (with_db db w, thrown (repository e))
started_with w (db, ok n) = (record w { db = db; started = true }, returned n)

-- `start`: what was being delivered when the Agent stopped is recovered before any dispatch.
unfoldable pub start : Bool → Bool → ℕ → World → World × Answer ℕ
start closed durable now w =
    if w.started
    then (w, returned 0)
    else if closed
    then (w, thrown scope_closed)
    else started_with (filed durable (recover_delivering now w.db) w)
        (transaction durable (recover_delivering now) w.db)

unfoldable pub list_items : Option String → World → Result (List QueueRecord)
list_items thread_id w = list (record { thread_id = thread_id; include_completed = false }) w.db

pub record Adding : Type 0 where
  pub thread_id : String
  pub text : String
  pub id : String
  pub now : ℕ
  pub durable : Bool

abbrev pub added : World → Database × Result QueueRecord → World × Answer QueueRecord
added w (db, err e) = (with_db db w, thrown (repository e))
added w (db, ok r) = (emit (changed r) (with_db db w), returned r)

abbrev pub new_item : Adding → String → NewItem
new_item a path = record {
  workspace_path = path;
  thread_id = a.thread_id;
  text = a.text;
  id = a.id;
  now = a.now;
}

abbrev pub add_at : Adding → World → Option String → World × Answer QueueRecord
add_at a w none = (w, thrown workspace_changed)
add_at a w (some path) =
    added (filed a.durable (add (new_item a path) w.db) w)
      (transaction a.durable (add (new_item a path)) w.db)

abbrev pub add_snapshot :
    Surroundings → Adding → World → Option Snapshot → World × Answer QueueRecord
add_snapshot s a w none = (w, thrown lease_failed)
add_snapshot s a w (some snapshot) = add_at a w (s.authorize snapshot.workspace_path)

-- `add`: the item takes the authorized path of the workspace that the thread is in.
unfoldable pub add_item : Surroundings → Adding → World → World × Answer QueueRecord
add_item s a w =
    if not s.allowed
    then (w, thrown not_allowed)
    else if not s.leased
    then (w, thrown lease_failed)
    else add_snapshot s a w s.snapshot

abbrev pub removed_with : String → World → Database × Result Bool → World × Answer Bool
removed_with id w (db, err e) = (with_db db w, thrown (repository e))
removed_with id w (db, ok true) = (emit (removed id) (with_db db w), returned true)
removed_with id w (db, ok false) = (with_db db w, returned false)

unfoldable pub remove_item : Bool → String → World → World × Answer Bool
remove_item durable id w =
    removed_with id (filed durable (remove id w.db) w) (transaction durable (remove id) w.db)

abbrev pub acknowledged_with : World → Database × Result QueueRecord → World × Answer QueueRecord
acknowledged_with w (db, err (state_conflict id)) = (with_db db w, thrown queue_state_conflict)
acknowledged_with w (db, err e) = (with_db db w, thrown (repository e))
acknowledged_with w (db, ok r) = (emit (changed r) (with_db db w), returned r)

unfoldable pub acknowledge : Bool → String → Disposition → ℕ → World → World × Answer QueueRecord
acknowledge durable id disposition now w =
    acknowledged_with (filed durable (acknowledge_indeterminate id disposition now w.db) w)
      (transaction durable (acknowledge_indeterminate id disposition now) w.db)

-- The service with the deliveries that are claimed and not yet sent, and those whose request is not
-- answered yet.
pub record Service : Type 0 where
  pub world : World
  pub sending : List Sending
  pub awaiting : List Sending

-- A request to the service, up to the claim where it delivers; or, of the delivery at a place of its
-- list, `#deliver` sends the request, or takes the answer; or the Agent stops, and opens the file.
pub data Call : Type 0 where
  starts : Bool → Bool → ℕ → Call
  adds : Surroundings → Adding → Call
  removes : Bool → String → Call
  steers : Surroundings → String → String → Call
  acknowledges : Bool → String → Disposition → ℕ → Call
  dispatches : Surroundings → Bool → Call
  sends : ℕ → Delivering → Call
  answers : ℕ → Delivering → Call
  restarts : Call

abbrev pub beside {ℓ} : {A : Type ℓ} → A → Option (A × List A) → Option (A × List A)
beside x none = none
beside x (some (y, ys)) = some (y, x ∷ ys)

abbrev pub pick {ℓ} : {A : Type ℓ} → ℕ → List A → Option (A × List A)
pick n [] = none
pick n (x ∷ xs) = let rest = pick (n - 1) xs in if n == 0 then some (x, xs) else beside x rest

abbrev pub served {ℓ} : {A : Type ℓ} → Service → World × A → Service
served y (w, a) = record y { world = w }

abbrev pub dispatched : Service → World × Answer (Option Sending) → Service
dispatched y (w, returned (some x)) = record y { world = w; sending = x ∷ y.sending }
dispatched y (w, returned none) = record y { world = w }
dispatched y (w, thrown e) = record y { world = w }

abbrev pub steered : Service → World × Answer Sending → Service
steered y (w, returned x) = record y { world = w; sending = x ∷ y.sending }
steered y (w, thrown e) = record y { world = w }

-- The first half of `#deliver`: where the lease is closed it makes no request.
abbrev pub sent : Delivering → Service → Option (Sending × List Sending) → Service
sent d y none = y
sent d y (some (x, xs)) =
    if d.lease_open
    then record y {
      world = requested x.identity.operation x.item x.identity x.expected y.world;
      sending = xs;
      awaiting = x ∷ y.awaiting;
    }
    else record y {
      world =
          (deliver_open false (observes x.identity.operation x.eligible x.expected) x.item
            x.identity x.expected x.eligible d y.world).0;
      sending = xs;
    }

-- The second half.
abbrev pub replied : Delivering → Service → Option (Sending × List Sending) → Service
replied d y none = y
replied d y (some (x, xs)) = record y {
  world =
      (answered x.item x.identity x.eligible d y.world
        (accepted_turn x.identity.operation x.expected d.reply)).0;
  awaiting = xs;
}

-- `SqliteStateFile.open`, in a new process.
abbrev pub restarted : World → World
restarted w = record w { db = w.disk; started = false }

unfoldable pub serve : Call → Service → Service
serve (starts closed durable now) y = served y (start closed durable now y.world)
serve (adds s a) y = served y (add_item s a y.world)
serve (removes durable id) y = served y (remove_item durable id y.world)
serve (steers s id text) y = steered y (steer s id text y.world)
serve (acknowledges durable id d now) y = served y (acknowledge durable id d now y.world)
serve (dispatches s closed) y = dispatched y (dispatch_once s closed y.world)
serve (sends n d) y = sent d y (pick n y.sending)
serve (answers n d) y = replied d y (pick n y.awaiting)
serve restarts y = record { world = restarted y.world; sending = []; awaiting = [] }

unfoldable pub run : List Call → Service → Service
run [] y = y
run (c ∷ cs) y = run cs (serve c y)
