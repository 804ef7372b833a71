-- ===== src/Queue/Repository/History/Invariant.antt =====
-- The invariant of the Queue tables over histories of their transactions.
use codex_everywhere.Prelude.{◌≡◌, refl, Bool, List, [], ◌∷◌}
use codex_everywhere.Queue.Rows.{Database, Result, ok, err, pending, paused}
use codex_everywhere.Queue.Items.{commit, transaction, pause, resume, add, remove}
use codex_everywhere.Queue.Claims.{claim}
use codex_everywhere.Queue.Outcomes.{
  complete, mark_indeterminate, recover_delivering, acknowledge_indeterminate,
}
use codex_everywhere.Queue.Repository.Consistent.{IsConsistent}
use codex_everywhere.Queue.Repository.Steps.{
  add-IsConsistent, remove-IsConsistent, transition-IsConsistent, claim-IsConsistent,
}
use codex_everywhere.Queue.Repository.Settle.{
  complete-IsConsistent, mark_indeterminate-IsConsistent,
}
use codex_everywhere.Queue.Repository.Recover.{recover-IsConsistent, acknowledge-IsConsistent}
use codex_everywhere.Queue.Repository.History.{
  Method, adds, removes, pauses, resumes, claims, completes, doubts, recovers, acknowledges, left,
  perform, run,
}

-- What a body leaves is what the transaction leaves, whether or not the file was written.
pub transaction-keeps {ℓ κ} :
    {A : Type ℓ} (P : Database → Type κ) (durable : Bool) (body : Database → Result (Database × A))
    (db : Database)
    → P db
    → ((next : Database) (a : A) → body db ≡ ok (next, a) → P next)
    → P (left (transaction durable body db))
unfolding transaction
transaction-keeps {A} P durable body db h keep = go (body db) refl
  where
    go : (m : Result (Database × A)) → body db ≡ m → P (left (commit durable db m))
    go (err e) q = h
    go (ok (next, a)) q = keep next a q

-- Every transaction of the repository keeps the invariant, whichever way it ends.
pub perform-IsConsistent :
    (m : Bool × Method) (db : Database) → IsConsistent db → IsConsistent (perform m db)
unfolding perform pause resume
perform-IsConsistent (durable, adds input) db h =
    transaction-keeps IsConsistent durable (add input) db h (λ n a. add-IsConsistent input db n a h)
perform-IsConsistent (durable, removes id) db h =
    transaction-keeps IsConsistent durable (remove id) db h (λ n a. remove-IsConsistent id db n a h)
perform-IsConsistent (durable, pauses id now) db h =
    transaction-keeps IsConsistent durable (pause id now) db h
      (λ n a. transition-IsConsistent id pending paused now db n a h refl refl)
perform-IsConsistent (durable, resumes id now) db h =
    transaction-keeps IsConsistent durable (resume id now) db h
      (λ n a. transition-IsConsistent id paused pending now db n a h refl refl)
perform-IsConsistent (durable, claims input) db h =
    transaction-keeps IsConsistent durable (claim input) db h
      (λ n a. claim-IsConsistent input db n a h)
perform-IsConsistent (durable, completes identity turn_id now) db h =
    transaction-keeps IsConsistent durable (complete identity turn_id now) db h
      (λ n a. complete-IsConsistent identity db h turn_id now n a)
perform-IsConsistent (durable, doubts identity now) db h =
    transaction-keeps IsConsistent durable (mark_indeterminate identity now) db h
      (λ n a. mark_indeterminate-IsConsistent identity db h now n a)
perform-IsConsistent (durable, recovers now) db h =
    transaction-keeps IsConsistent durable (recover_delivering now) db h
      (λ n a. recover-IsConsistent now db h n a)
perform-IsConsistent (durable, acknowledges id disposition now) db h =
    transaction-keeps IsConsistent durable (acknowledge_indeterminate id disposition now) db h
      (λ n a. acknowledge-IsConsistent now db h id disposition n a)

-- After any history of transactions from consistent tables, the keys of items and claims are
-- distinct and every item has exactly the claim that its status calls for.
pub run-IsConsistent :
    (ms : List (Bool × Method)) (db : Database) → IsConsistent db → IsConsistent (run ms db)
unfolding run
run-IsConsistent [] db h = h
run-IsConsistent (m ∷ ms) db h = run-IsConsistent ms (perform m db) (perform-IsConsistent m db h)
