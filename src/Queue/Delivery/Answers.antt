-- ===== src/Queue/Delivery/Answers.antt =====
-- What a delivery that returns has done.
use codex_everywhere.Prelude.{
  ℕ, ◌≡◌, refl, Bool, true, false, List, Option, none, some, String, same, ◌==◌, if◌then◌else◌,
  if_either, arith, Bool-cases, inl, inr,
}
use codex_everywhere.Table.{at, lookup, update, modified}
use codex_everywhere.Table.Laws.{holds, lookup-update, at-lookup, modified-absent_key}
use codex_everywhere.Queue.Rows.{
  Database, QueueRecord, DeliveryIdentity, RecordStatus, ItemRow, item_id, Result, ok, err, ◌>>=◌,
  is_status, read_queue, required_queue, read_claim, Outcome, state_conflict,
}
use codex_everywhere.Queue.Items.{transaction, commit, get, touch}
use codex_everywhere.Queue.Outcomes.{
  complete, mark_indeterminate, finish, update_queue_status, if_completed, open_claim, settle,
  already_completed,
}
use codex_everywhere.Queue.Delivery.{
  World, Answer, returned, thrown, Delivering, filed, deliver, deliver_open, answered, committed,
  settle_unknown, repaired, repaired_read, repaired_mark, delivery_event, emit, changed, with_db,
  DeliveryState, outcome_unknown, observes, requested, accepted_turn, titled, noted,
}

-- A result is an error, or a record of a status.
abbrev pub Has : RecordStatus → Result (Database × QueueRecord) → Type 0
Has s (err e) = Unit
Has s (ok (db, r)) = is_status r.status s ≡ true

required_status :
    (db : Database) (id : String) (r : QueueRecord)
    → holds (λ x. is_status x.status RecordStatus.completed) (lookup item_id id db.items) ≡ true
    → required_queue db id ≡ ok r
    → is_status r.status RecordStatus.completed ≡ true
unfolding required_queue read_queue
required_status db id r h e = ground (arith, h, e)

touched_completed :
    (id : String) (now : ℕ) (rows : List ItemRow)
    → modified (at item_id id) rows ≡ 1
    → holds
        (λ x. is_status x.status RecordStatus.completed)
        (lookup item_id id (update (at item_id id) (touch RecordStatus.completed now) rows))
      ≡ true
touched_completed id now rows m = ground (
  arith,
  m,
  lookup-update item_id (at item_id id) (touch RecordStatus.completed now) (λ r. refl) id rows,
  at-lookup item_id id rows,
  modified-absent_key item_id id rows,
)

finish-Has :
    (id : String) (now : ℕ) (db : Database)
    → Has RecordStatus.completed (finish id RecordStatus.completed now db)
unfolding update_queue_status
finish-Has id now db = elim (Bool-cases (modified (at item_id id) db.items == 1)) [
  | inl e ↦ rw e (go (touched_completed id now db.items (ground (arith, e))))
  | inr e ↦ rw e tt
]
  where
    next : Database
    next = record db { items = update (at item_id id) (touch RecordStatus.completed now) db.items }

    go :
        holds (λ x. is_status x.status RecordStatus.completed) (lookup item_id id next.items) ≡ true
        → Has RecordStatus.completed (required_queue next id >>= λ r. ok (next, r))
    go h = read (required_queue next id) refl
      where
        read :
            (m : Result QueueRecord)
            → required_queue next id ≡ m
            → Has RecordStatus.completed (m >>= λ r. ok (next, r))
        read (err x) q = tt
        read (ok r) q = required_status next id r h q

complete-Has :
    (identity : DeliveryIdentity) (turn : String) (now : ℕ) (db : Database)
    → Has RecordStatus.completed (complete identity turn now db)
unfolding complete
complete-Has identity turn now db = if_either (Has RecordStatus.completed) (same turn "") tt (
    if_either (Has RecordStatus.completed) (modified (open_claim identity) db.claims == 1)
      (finish-Has identity.queue_item_id now (record db {
        claims = update (open_claim identity) (settle Outcome.completed (some turn) now) db.claims;
      }))
      (if_either (Has RecordStatus.completed)
        (already_completed identity turn (read_claim db identity.queue_item_id))
        (read (read_queue db identity.queue_item_id)) tt))
  where
    read :
        (m : Result (Option QueueRecord))
        → Has RecordStatus.completed (m >>= if_completed identity db)
    read (err x) = tt
    read (ok none) = tt
    read (ok (some r)) = go (is_status r.status RecordStatus.completed) refl
      where
        go :
            (b : Bool)
            → is_status r.status RecordStatus.completed ≡ b
            → Has RecordStatus.completed
                (if b then ok (db, r) else err (state_conflict identity.queue_item_id))
        go true e = e
        go false e = tt

-- An answer is an error, or a completed record.
abbrev pub IsCompleted : World × Answer QueueRecord → Type 0
IsCompleted (w, returned r) = is_status r.status RecordStatus.completed ≡ true
IsCompleted (w, thrown e) = Unit

repaired-IsCompleted : (r : QueueRecord) (w : World) → IsCompleted (repaired r w)
repaired-IsCompleted r w = go (is_status r.status RecordStatus.completed) refl
  where
    go :
        (b : Bool)
        → is_status r.status RecordStatus.completed ≡ b
        → IsCompleted (
            if b
            then (delivery_event r DeliveryState.completed (emit (changed r) w), returned r)
            else (
              delivery_event r DeliveryState.indeterminate (emit (changed r) w),
              thrown outcome_unknown,
            ))
    go true e = e
    go false e = tt

settle-IsCompleted :
    (identity : DeliveryIdentity) (d : Delivering) (w : World)
    → IsCompleted (settle_unknown identity d w)
unfolding settle_unknown
settle-IsCompleted identity d w =
    go (filed d.mark_durable (mark_indeterminate identity d.mark_time w.db) w)
      (transaction d.mark_durable (mark_indeterminate identity d.mark_time) w.db)
  where
    read : (w : World) (m : Result (Option QueueRecord)) → IsCompleted (repaired_read w m)
    read w (err e) = tt
    read w (ok none) = tt
    read w (ok (some r)) = repaired-IsCompleted r w

    go :
        (w : World) (p : Database × Result QueueRecord)
        → IsCompleted (repaired_mark identity.queue_item_id w p)
    go w (db, ok r) = repaired-IsCompleted r (with_db db w)
    go w (db, err e) = read (with_db db w) (get identity.queue_item_id db)

-- Whatever the lease, app-server and the file do, a delivery either throws or returns a record whose
-- status is completed.
pub deliver-IsCompleted :
    (item : QueueRecord) (identity : DeliveryIdentity) (expected : Option String) (eligible : Bool)
    (d : Delivering) (w : World)
    → IsCompleted (deliver item identity expected eligible d w)
unfolding deliver transaction
deliver-IsCompleted item identity expected eligible d w =
    by_lease d.lease_open (observes identity.operation eligible expected)
  where
    commits :
        (w : World) (durable : Bool) (m : Result (Database × QueueRecord))
        → Has RecordStatus.completed m
        → IsCompleted (committed identity d w (commit durable w.db m))
    commits w durable (err e) h = settle-IsCompleted identity d (with_db w.db w)
    commits w true (ok (db, r)) h = h
    commits w false (ok (db, r)) h = settle-IsCompleted identity d (with_db db w)

    by_turn : (w : World) (t : Option String) → IsCompleted (answered item identity eligible d w t)
    by_turn w none = settle-IsCompleted identity d w
    by_turn w (some t) =
        let w' = titled eligible t item.text (noted identity.operation t w) in
        commits (filed d.complete_durable (complete identity t d.complete_time w'.db) w')
          d.complete_durable (complete identity t d.complete_time w'.db)
          (complete-Has identity t d.complete_time w'.db)

    by_lease : (b o : Bool) → IsCompleted (deliver_open b o item identity expected eligible d w)
    by_lease true o =
        by_turn (requested identity.operation item identity expected w)
          (accepted_turn identity.operation expected d.reply)
    by_lease false true = tt
    by_lease false false = settle-IsCompleted identity d w
