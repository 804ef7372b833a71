-- ===== src/Queue/Items.antt =====
-- The methods of `QueueRepository` in apps/agent/src/v2/repositories/queue-repository.ts that claim no
-- delivery. Each takes the tables as it finds them and returns them as its statements leave them;
-- `transaction` of sqlite-state-file.ts runs it. The UUIDs and the times that a method makes are
-- arguments.
use codex_everywhere.Prelude.{
  ℕ, ◌+◌, Bool, ◌&&◌, ◌||◌, not, [], ◌∷◌, ◌++◌, Option, none, String, ◌==◌, if◌then◌else◌,
}
use codex_everywhere.Table.{update, delete, modified, exists, at}
use codex_everywhere.Queue.Rows.{
  RecordStatus, pending, paused, ItemRow, Database, QueueRecord, state_conflict, constraint_failed,
  storage_failed, Result, ok, err, ◌>>=◌, is_status, item_id, claim_id, request_json, read_queue,
  required_queue,
}

-- `SqliteStateFile.transaction`: a body that throws is rolled back. Where the file could not be
-- written (`durable` is false) the caller gets an error after COMMIT. `#reload` skips a file that has
-- the known revision, so the open database goes on with what was committed.
abbrev pub commit {ℓ} : {A : Type ℓ} → Bool → Database → Result (Database × A) → Database × Result A
commit durable db (err e) = (db, err e)
commit durable db (ok (next, a)) = (next, if durable then ok a else err storage_failed)

unfoldable pub transaction {ℓ} :
    {A : Type ℓ} → Bool → (Database → Result (Database × A)) → Database → Database × Result A
transaction durable body db = commit durable db (body db)

-- `#persist`: what the file holds after a transaction whose body ended so. It is written whole, with
-- what earlier transactions could not write.
abbrev pub stored {ℓ} : {A : Type ℓ} → Bool → Result (Database × A) → Database → Database
stored durable (err e) disk = disk
stored durable (ok (next, a)) disk = if durable then next else disk

pub record NewItem : Type 0 where
  pub workspace_path : String
  pub thread_id : String
  pub text : String
  pub id : String
  pub now : ℕ

abbrev pub new_row : NewItem → ItemRow
new_row input = record {
  id = input.id;
  workspace_path = input.workspace_path;
  thread_id = input.thread_id;
  request = request_json input.text;
  status = pending;
  revision = 0;
  created_at = input.now;
  updated_at = input.now;
}

abbrev pub new_record : NewItem → QueueRecord
new_record input = record {
  id = input.id;
  workspace_path = input.workspace_path;
  thread_id = input.thread_id;
  text = input.text;
  status = pending;
  revision = 0;
  created_at = input.now;
  updated_at = input.now;
  indeterminate_reason = none;
}

-- The INSERT fails where the primary key is taken.
unfoldable pub add : NewItem → Database → Result (Database × QueueRecord)
unfolding request_json
add input db =
    if exists (at item_id input.id) db.items
    then err constraint_failed
    else ok (record db { items = db.items ++ new_row input ∷ [] }, new_record input)

unfoldable pub get : String → Database → Result (Option QueueRecord)
get id db = read_queue db id

-- DELETE … WHERE status IN ('pending', 'paused') AND NOT EXISTS (a claim). The deleted row has no
-- claim, so ON DELETE CASCADE finds nothing more.
abbrev pub unclaimed : String → Database → Bool
unclaimed id db = not (exists (at claim_id id) db.claims)

abbrev pub removable : String → Database → ItemRow → Bool
removable id db r =
    at item_id id r
    && ((is_status r.status pending || is_status r.status paused) && unclaimed id db)

unfoldable pub remove : String → Database → Result (Database × Bool)
remove id db = ok (
  record db { items = delete (removable id db) db.items },
  modified (removable id db) db.items == 1,
)

abbrev pub touch : RecordStatus → ℕ → ItemRow → ItemRow
touch status now r = record r { status = status; revision = r.revision + 1; updated_at = now }

unfoldable pub transition_without_claim :
    String → RecordStatus → RecordStatus → ℕ → Database → Result (Database × QueueRecord)
transition_without_claim id from to now db =
    let selected : ItemRow → Bool =
      λ r. at item_id id r && (is_status r.status from && unclaimed id db) in
    let next : Database = record db { items = update selected (touch to now) db.items } in
    if modified selected db.items == 1
    then (required_queue next id >>= λ r. ok (next, r))
    else err (state_conflict id)

unfoldable pub pause : String → ℕ → Database → Result (Database × QueueRecord)
unfolding transition_without_claim
pause id = transition_without_claim id pending paused

unfoldable pub resume : String → ℕ → Database → Result (Database × QueueRecord)
unfolding transition_without_claim
resume id = transition_without_claim id paused pending
