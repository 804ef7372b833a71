-- ===== src/Queue/Repository/History.antt =====
-- Histories of the repository: any sequence of its transactions, in any order and by any callers.
-- The file lock and `#serialize` of sqlite-state-file.ts run them one at a time.
pub mod Invariant
pub mod Spent
pub mod Once
use codex_everywhere.Prelude.{
  ℕ, ◌+◌, ◌≡◌, Bool, true, false, ◌&&◌, List, [], ◌∷◌, String, same, if◌then◌else◌,
}
use codex_everywhere.Queue.Rows.{
  pending, paused, Disposition, retry, dismiss, Database, DeliveryIdentity, Result, ok, err,
}
use codex_everywhere.Queue.Items.{transaction, stored, NewItem, add, remove, pause, resume}
use codex_everywhere.Queue.Claims.{ClaimInput, claim}
use codex_everywhere.Queue.Outcomes.{
  complete, mark_indeterminate, recover_delivering, acknowledge_indeterminate,
}

-- The methods that change the tables.
pub data Method : Type 0 where
  adds : NewItem → Method
  removes : String → Method
  pauses resumes : String → ℕ → Method
  claims : ClaimInput → Method
  completes : DeliveryIdentity → String → ℕ → Method
  doubts : DeliveryIdentity → ℕ → Method
  recovers : ℕ → Method
  acknowledges : String → Disposition → ℕ → Method

abbrev pub left {ℓ} : {A : Type ℓ} → Database × Result A → Database
left (db, r) = db

abbrev pub is_ok {ℓ} : {A : Type ℓ} → Result A → Bool
is_ok (ok a) = true
is_ok (err e) = false

abbrev pub granted {ℓ} : {A : Type ℓ} → Database × Result A → Bool
granted (db, r) = is_ok r

-- One transaction, and whether its file could be written.
unfoldable pub perform : Bool × Method → Database → Database
unfolding transaction
perform (durable, adds input) db = left (transaction durable (add input) db)
perform (durable, removes id) db = left (transaction durable (remove id) db)
perform (durable, pauses id now) db = left (transaction durable (pause id now) db)
perform (durable, resumes id now) db = left (transaction durable (resume id now) db)
perform (durable, claims input) db = left (transaction durable (claim input) db)
perform (durable, completes identity turn_id now) db =
    left (transaction durable (complete identity turn_id now) db)
perform (durable, doubts identity now) db =
    left (transaction durable (mark_indeterminate identity now) db)
perform (durable, recovers now) db = left (transaction durable (recover_delivering now) db)
perform (durable, acknowledges id disposition now) db =
    left (transaction durable (acknowledge_indeterminate id disposition now) db)

unfoldable pub run : List (Bool × Method) → Database → Database
run [] db = db
run (m ∷ ms) db = run ms (perform m db)

-- The open database, and the database that the file holds.
pub record Files : Type 0 where
  pub memory : Database
  pub disk : Database

-- What the file holds after the transaction.
unfoldable pub file_left : Bool × Method → Files → Database
file_left (durable, adds input) f = stored durable (add input f.memory) f.disk
file_left (durable, removes id) f = stored durable (remove id f.memory) f.disk
file_left (durable, pauses id now) f = stored durable (pause id now f.memory) f.disk
file_left (durable, resumes id now) f = stored durable (resume id now f.memory) f.disk
file_left (durable, claims input) f = stored durable (claim input f.memory) f.disk
file_left (durable, completes identity turn_id now) f =
    stored durable (complete identity turn_id now f.memory) f.disk
file_left (durable, doubts identity now) f =
    stored durable (mark_indeterminate identity now f.memory) f.disk
file_left (durable, recovers now) f = stored durable (recover_delivering now f.memory) f.disk
file_left (durable, acknowledges id disposition now) f =
    stored durable (acknowledge_indeterminate id disposition now f.memory) f.disk

-- A transaction, or the process stops and opens the file again.
pub data Change : Type 0 where
  performs : Bool × Method → Change
  reopens : Change

unfoldable pub change : Change → Files → Files
unfolding perform file_left
change (performs m) f = record { memory = perform m f.memory; disk = file_left m f }
change reopens f = record f { memory = f.disk }

-- A delivery of the item is claimed: the caller may now send it.
unfoldable pub claims_item : String → Bool × Method → Database → ℕ
unfolding transaction
claims_item k (durable, claims input) db =
    if same input.item_id k && granted (transaction durable (claim input) db) then 1 else 0
claims_item k (durable, _) db = 0

-- The user asks for another delivery of the item.
unfoldable pub retries_item : String → Bool × Method → ℕ
retries_item k (durable, acknowledges id retry now) = if same id k then 1 else 0
retries_item k (durable, _) = 0

unfoldable pub claims_of : String → List Change → Files → ℕ
unfolding change claims_item
claims_of k [] f = 0
claims_of k (performs m ∷ cs) f = claims_item k m f.memory + claims_of k cs (change (performs m) f)
claims_of k (reopens ∷ cs) f = claims_of k cs (change reopens f)

unfoldable pub retries_of : String → List Change → ℕ
unfolding retries_item
retries_of k [] = 0
retries_of k (performs m ∷ cs) = retries_item k m + retries_of k cs
retries_of k (reopens ∷ cs) = retries_of k cs
