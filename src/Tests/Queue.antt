-- ===== src/Tests/Queue.antt =====
-- A Queue item that is added, dispatched with an unusable answer, retried by the user and dispatched
-- again; and the theorems on it.
use codex_everywhere.Prelude.{
  ℕ, ◌+◌, ◌≤◌, ◌≡◌, refl, Bool, true, false, List, [], ◌∷◌, none, some, String, All, same,
  text_discrete, if◌then◌else◌, arith,
}
use codex_everywhere.Table.{modified, find, exists, update, delete}
use codex_everywhere.Queue.Rows.{
  Database, DeliveryIdentity, QueueRecord, ItemRow, turn_start, turn_steer, delivering,
  ClaimedDelivery, err, state_conflict, pending, retry, read_queue, required_queue, claim_matches,
}
use codex_everywhere.Queue.Items.{NewItem, add, transaction}
use codex_everywhere.Queue.Claims.{ClaimInput, claim, claimed_tables}
use codex_everywhere.Queue.Repository.Reads.{next_pending}
use codex_everywhere.Queue.Repository.Reads.Oldest.{IsReadable, Oldest, next_pending-Oldest}
use codex_everywhere.Queue.Repository.Exclusive.{claim-excludes}
use codex_everywhere.Queue.Outcomes.{
  mark_indeterminate, recover_delivering, acknowledge_indeterminate,
}
use codex_everywhere.Queue.Delivery.Answers.{IsCompleted, deliver-IsCompleted}
use codex_everywhere.Queue.Repository.Consistent.{IsConsistent}
use codex_everywhere.Queue.Repository.History.{
  Method, Files, Change, performs, reopens, claims_of, retries_of,
}
use codex_everywhere.Queue.Repository.History
use codex_everywhere.Queue.Repository.History.Invariant.{run-IsConsistent}
use codex_everywhere.Queue.Repository.History.Spent.{spent_at}
use codex_everywhere.Queue.Repository.History.Once.{claims-le-retries}
use codex_everywhere.Queue.Delivery.{World, Delivering, turn, invalid_response, deliver}
use codex_everywhere.Queue.Delivery.Outcome.{requests, IsAccounted, deliver-IsAccounted}
use codex_everywhere.Queue.Service.{Surroundings, Snapshot, idle, dispatch_once}
use codex_everywhere.Queue.Requests.{
  Call, Service, starts, adds, acknowledges, dispatches, sends, answers, restarts, run, start,
  add_item, acknowledge, serve,
}
use codex_everywhere.Queue.Requests.Once.{retries, requests-le-retries}

abbrev no_rows : Database
no_rows = record { items = []; claims = []; audit = [] }

no_rows-IsConsistent : IsConsistent no_rows
unfolding modified find
no_rows-IsConsistent = record {
  items_keyed = λ k. omega arith;
  claims_keyed = λ k. omega arith;
  agree = λ k. refl;
}

abbrev new_world : World
new_world = record { db = no_rows; disk = no_rows; log = []; started = false }

abbrev snapshot : Snapshot
snapshot = record { workspace_path = "/work"; state = idle; current_turn_id = none; named = true }

abbrev surroundings : Bool → ℕ → Surroundings
surroundings durable now = record {
  allowed = true;
  leased = true;
  snapshot = some snapshot;
  authorize = λ path. some path;
  pause_durable = true;
  pause_time = now;
  claim_durable = durable;
  claim_time = now;
  client_user_message_id = "m";
}

abbrev unusable : Delivering
unusable = record {
  lease_open = true;
  reply = invalid_response;
  complete_durable = true;
  complete_time = 3;
  mark_durable = true;
  mark_time = 4;
}

abbrev accepted : Delivering
accepted = record {
  lease_open = true;
  reply = turn "t1";
  complete_durable = true;
  complete_time = 6;
  mark_durable = true;
  mark_time = 7;
}

-- The first claim is not written and lost with the process. The second is delivered with an unusable
-- answer; the third delivery, after a retry, is cut off between its request and the answer.
abbrev calls : List Call
calls =
    starts false true 1
    ∷ adds (surroundings true 2)
        (record { thread_id = "th"; text = "hello"; id = "q"; now = 2; durable = true })
    ∷ dispatches (surroundings false 3) false
    ∷ sends 0 accepted
    ∷ restarts
    ∷ starts false true 3
    ∷ dispatches (surroundings true 3) false
    ∷ dispatches (surroundings true 4) false
    ∷ sends 0 unusable
    ∷ answers 0 unusable
    ∷ acknowledges true "q" retry 5
    ∷ dispatches (surroundings true 6) false
    ∷ sends 0 accepted
    ∷ restarts
    ∷ starts false true 7
    ∷ dispatches (surroundings true 8) false
    ∷ []

abbrev new_service : Service
new_service = record { world = new_world; sending = []; awaiting = [] }

two_requests : requests "q" (run calls new_service).world.log ≡ 2
unfolding text_discrete start add_item acknowledge serve run dispatch_once deliver transaction add
    claimed_tables claim mark_indeterminate recover_delivering acknowledge_indeterminate
    required_queue claim_matches next_pending find update delete modified exists
two_requests = refl

requests-le-retries_example :
    let z = run calls new_service in
    (requests "q" z.world.log ≤ retries "q" calls + 1)
    × IsConsistent z.world.db
    × IsConsistent z.world.disk
requests-le-retries_example =
    requests-le-retries "q" calls new_service no_rows-IsConsistent no_rows-IsConsistent refl refl

abbrev new_item : NewItem
new_item = record { workspace_path = "/work"; thread_id = "th"; text = "hello"; id = "q"; now = 2 }

abbrev claim_input : ClaimInput
claim_input = record {
  item_id = "q";
  expected_revision = 0;
  operation = turn_start;
  replacement_text = none;
  client_user_message_id = "m";
  now = 3;
}

abbrev identity : DeliveryIdentity
identity = record {
  queue_item_id = "q";
  operation = turn_start;
  thread_id = "th";
  client_user_message_id = "m";
}

abbrev history : List (Bool × Method)
history =
    (true, Method.adds new_item)
    ∷ (true, Method.claims claim_input)
    ∷ (true, Method.claims claim_input)
    ∷ (true, Method.completes identity "t1" 5)
    ∷ []

abbrev new_files : Files
new_files = record { memory = no_rows; disk = no_rows }

-- The first claim is not written, and lost; the second is kept over a restart and a third refused.
abbrev changes : List Change
changes =
    performs (true, Method.adds new_item)
    ∷ performs (false, Method.claims claim_input)
    ∷ reopens
    ∷ performs (true, Method.claims claim_input)
    ∷ reopens
    ∷ performs (true, Method.claims claim_input)
    ∷ []

one_claim : claims_of "q" changes new_files ≡ 1
unfolding claims_of History.claims_item text_discrete claim read_queue find History.change
    History.perform History.file_left add exists modified required_queue claimed_tables update
one_claim = refl

claims-le-retries_example : claims_of "q" changes new_files ≤ retries_of "q" changes + 1
claims-le-retries_example =
    claims-le-retries "q" changes new_files no_rows-IsConsistent no_rows-IsConsistent

run-IsConsistent_example : IsConsistent (History.run history no_rows)
run-IsConsistent_example = run-IsConsistent history no_rows no_rows-IsConsistent

abbrev item : QueueRecord
item = record {
  id = "q";
  workspace_path = "/work";
  thread_id = "th";
  text = "hello";
  status = pending;
  revision = 1;
  created_at = 2;
  updated_at = 2;
  indeterminate_reason = none;
}

-- The item is in the tables with its claim.
abbrev claimed_history : List (Bool × Method)
claimed_history = (true, Method.adds new_item) ∷ (true, Method.claims claim_input) ∷ []

abbrev delivering_world : World
delivering_world = record new_world { db = History.run claimed_history no_rows }

item_claimed : spent_at "q" delivering_world.db ≡ 1
unfolding History.run text_discrete claim read_queue find History.perform add exists modified
    required_queue claimed_tables update
item_claimed = refl

deliver-IsAccounted_example :
    IsAccounted "q" delivering_world
      (deliver item identity none false unusable delivering_world).0
      (if same "q" "q" then 1 else 0)
deliver-IsAccounted_example =
    deliver-IsAccounted "q" identity unusable item none false delivering_world
      (run-IsConsistent claimed_history no_rows no_rows-IsConsistent)

abbrev row : String → ℕ → ItemRow
row id created = record {
  id = id;
  workspace_path = "/work";
  thread_id = "th";
  request = record { version = 1; text = "hello" };
  status = pending;
  revision = 0;
  created_at = created;
  updated_at = created;
}

abbrev two_rows : Database
two_rows = record { items = row "a" 7 ∷ row "b" 5 ∷ []; claims = []; audit = [] }

two_rows-IsReadable : All IsReadable two_rows.items
two_rows-IsReadable = (refl, (refl, tt))

next_pending-Oldest_example : Oldest two_rows (next_pending two_rows)
next_pending-Oldest_example = next_pending-Oldest two_rows two_rows-IsReadable

abbrev one_row : Database
one_row = record { items = row "q" 2 ∷ []; claims = []; audit = [] }

one_row-IsConsistent : IsConsistent one_row
unfolding modified find
one_row-IsConsistent = record {
  items_keyed = λ k. ground arith;
  claims_keyed = λ k. omega arith;
  agree = λ k. ground arith;
}

abbrev claimed_row : ClaimedDelivery
claimed_row = record {
  item = record item { status = delivering; revision = 1; updated_at = 3 };
  identity = identity;
}

abbrev claimed_once : Database
claimed_once = record {
  items = record (row "q" 2) { status = delivering; revision = 1; updated_at = 3 } ∷ [];
  claims =
      record {
        queue_item_id = "q";
        operation = turn_start;
        thread_id = "th";
        client_user_message_id = "m";
        outcome = none;
        turn_id = none;
        created_at = 3;
        completed_at = none;
      }
      ∷ [];
  audit = [];
}

abbrev steer_input : ClaimInput
steer_input = record claim_input { operation = turn_steer; expected_revision = 1 }

claim-excludes_example : claim steer_input claimed_once ≡ err (state_conflict "q")
unfolding claim read_queue required_queue claimed_tables find modified exists update text_discrete
claim-excludes_example =
    claim-excludes claim_input steer_input one_row claimed_once claimed_row one_row-IsConsistent
      refl refl

deliver-IsCompleted_example :
    IsCompleted (
      deliver claimed_row.item identity none false unusable
        (record new_world { db = claimed_once }))
deliver-IsCompleted_example =
    deliver-IsCompleted claimed_row.item identity none false unusable
      (record new_world { db = claimed_once })
