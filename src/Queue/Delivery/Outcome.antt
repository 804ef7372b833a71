-- ===== src/Queue/Delivery/Outcome.antt =====
-- The account of an item over a delivery: the requests for it, against what was claimed.
use codex_everywhere.Prelude.{
  ℕ, ◌+◌, ◌≤◌, ◌≡◌, Bool, true, false, List, [], ◌∷◌, Option, none, some, String, same, Bool-cases,
  inl, inr, if◌then◌else◌, arith,
}
use codex_everywhere.Queue.Rows.{
  RecordStatus, Database, QueueRecord, is_status, DeliveryIdentity, Result, ok, err,
}
use codex_everywhere.Queue.Items.{transaction, get}
use codex_everywhere.Queue.Outcomes.{complete, mark_indeterminate}
use codex_everywhere.Queue.Repository.Consistent.{IsConsistent}
use codex_everywhere.Queue.Repository.Settle.{
  complete-IsConsistent, mark_indeterminate-IsConsistent,
}
use codex_everywhere.Queue.Repository.History.{left}
use codex_everywhere.Queue.Repository.History.Invariant.{transaction-keeps}
use codex_everywhere.Queue.Repository.History.Spent.{spent_at, complete-spent, doubt-spent}
use codex_everywhere.Queue.Delivery.{
  Effect, changed, removed, delivery, start_requested, steer_requested, turn_noted, title_scheduled,
  World, Delivering, settle_unknown, deliver, with_db, filed, repaired_mark, repaired_read,
  repaired, committed, answered, requested, accepted_turn, titled, noted, observes, deliver_open,
}

-- How many requests for an item stand in a log.
abbrev pub requests : String → List Effect → ℕ
requests k [] = 0
requests k (start_requested i path text ∷ es) =
    requests k es + (if same i.queue_item_id k then 1 else 0)
requests k (steer_requested i t text ∷ es) =
    requests k es + (if same i.queue_item_id k then 1 else 0)
requests k (changed r ∷ es) = requests k es
requests k (removed i ∷ es) = requests k es
requests k (delivery i t s ∷ es) = requests k es
requests k (turn_noted t ∷ es) = requests k es
requests k (title_scheduled t text ∷ es) = requests k es

abbrev pub IsFine : String → World → Database → Type 0
IsFine k w db = IsConsistent db × (spent_at k w.db ≤ spent_at k db)

-- What a body leaves consistent, with the item spent if it was, its transaction does.
pub transaction-IsFine :
    {A : Type 0} (k : String) (w : World) (durable : Bool) (body : Database → Result (Database × A))
    → IsConsistent w.db
    → ((next : Database) (a : A) → body w.db ≡ ok (next, a) → IsFine k w next)
    → IsFine k w (left (transaction durable body w.db))
transaction-IsFine k w durable body h keep =
    transaction-keeps (IsFine k w) durable body w.db (h, omega arith) keep

-- From `w` to `w'` with the tables kept consistent, at most `n` requests for the item k made, and its
-- claim kept where it had one.
pub record IsAccounted (k : String) (w w' : World) (n : ℕ) : Type 0 where
  pub consistent : IsConsistent w'.db
  pub requested : requests k w'.log ≤ requests k w.log + n
  pub kept : spent_at k w.db ≤ spent_at k w'.db

-- What the file holds is not accounted for here.
but_for_file :
    (k : String) (w w' : World) (disk : Database) (n : ℕ)
    → IsAccounted k (record w { disk = disk }) w' n
    → IsAccounted k w w' n
but_for_file k w w' disk n b = record {
  consistent = b.consistent;
  requested = b.requested;
  kept = b.kept;
}

steady : (k : String) (w : World) → IsConsistent w.db → IsAccounted k w w 0
steady k w h = record { consistent = h; requested = omega arith; kept = omega arith }

chained :
    {k : String} {w₁ w₂ w₃ : World} {m n : ℕ}
    → IsAccounted k w₁ w₂ m
    → IsAccounted k w₂ w₃ n
    → IsAccounted k w₁ w₃ (m + n)
chained a b = record {
  consistent = b.consistent;
  requested = omega (arith, a.requested, b.requested);
  kept = omega (arith, a.kept, b.kept);
}

held : (k : String) (w : World) (db : Database) → IsFine k w db → IsAccounted k w (with_db db w) 0
held k w db h = record { consistent = h.0; requested = omega arith; kept = h.1 }

module _ (k : String) where
  repaired-IsAccounted :
      (r : QueueRecord) (w : World) → IsConsistent w.db → IsAccounted k w (repaired r w).0 0
  repaired-IsAccounted r w h = elim (Bool-cases (is_status r.status RecordStatus.completed)) [
    | inl e ↦ rw e (record { consistent = h; requested = omega arith; kept = omega arith })
    | inr e ↦ rw e (record { consistent = h; requested = omega arith; kept = omega arith })
  ]

  repaired_read-IsAccounted :
      (w : World) (m : Result (Option QueueRecord))
      → IsConsistent w.db
      → IsAccounted k w (repaired_read w m).0 0
  repaired_read-IsAccounted w (err e) h = steady k w h
  repaired_read-IsAccounted w (ok none) h = steady k w h
  repaired_read-IsAccounted w (ok (some r)) h = repaired-IsAccounted r w h

  repaired_mark-IsAccounted :
      (id : String) (w : World) (p : Database × Result QueueRecord)
      → IsFine k w (left p)
      → IsAccounted k w (repaired_mark id w p).0 0
  repaired_mark-IsAccounted id w (db, ok r) f =
      chained (held k w db f) (repaired-IsAccounted r (with_db db w) f.0)
  repaired_mark-IsAccounted id w (db, err e) f =
      chained (held k w db f) (repaired_read-IsAccounted (with_db db w) (get id db) f.0)

  module _ (identity : DeliveryIdentity) (d : Delivering) where
    settle-IsAccounted :
        (w : World) → IsConsistent w.db → IsAccounted k w (settle_unknown identity d w).0 0
    unfolding settle_unknown
    settle-IsAccounted w h =
        let m = mark_indeterminate identity d.mark_time w.db in
        let w' = filed d.mark_durable m w in
        but_for_file k w (settle_unknown identity d w).0 w'.disk 0 (
          repaired_mark-IsAccounted identity.queue_item_id w'
            (transaction d.mark_durable (mark_indeterminate identity d.mark_time) w.db)
            (transaction-IsFine k w' d.mark_durable (mark_indeterminate identity d.mark_time) h
              (λ n r e. (
                mark_indeterminate-IsConsistent identity w.db h d.mark_time n r e,
                doubt-spent k w.db h identity d.mark_time n r e,
              ))))

    committed-IsAccounted :
        (w : World) (p : Database × Result QueueRecord)
        → IsFine k w (left p)
        → IsAccounted k w (committed identity d w p).0 0
    committed-IsAccounted w (db, ok r) f = record {
      consistent = f.0;
      requested = omega arith;
      kept = f.1;
    }
    committed-IsAccounted w (db, err e) f =
        chained (held k w db f) (settle-IsAccounted (with_db db w) f.0)

    titled-IsAccounted :
        (eligible : Bool) (t text : String) (w : World)
        → IsConsistent w.db
        → IsAccounted k w (titled eligible t text (noted identity.operation t w)) 0
    titled-IsAccounted eligible t text w h = record {
      consistent = ground (arith, h);
      requested = ground arith;
      kept = ground arith;
    }

    complete-IsFine :
        (w : World) (t : String) (now : ℕ) (durable : Bool)
        → IsConsistent w.db
        → IsFine k w (left (transaction durable (complete identity t now) w.db))
    complete-IsFine w t now durable h =
        transaction-IsFine k w durable (complete identity t now) h (λ n r e. (
          complete-IsConsistent identity w.db h t now n r e,
          complete-spent k w.db h identity t now n r e,
        ))

    answered-IsAccounted :
        (item : QueueRecord) (eligible : Bool) (w : World) (t : Option String)
        → IsConsistent w.db
        → IsAccounted k w (answered item identity eligible d w t).0 0
    answered-IsAccounted item eligible w none h = settle-IsAccounted w h
    answered-IsAccounted item eligible w (some t) h =
        let b = titled-IsAccounted eligible t item.text w h in
        let w' = titled eligible t item.text (noted identity.operation t w) in
        let m = complete identity t d.complete_time w'.db in
        let w'' = filed d.complete_durable m w' in
        chained b (
          but_for_file k w' (answered item identity eligible d w (some t)).0 w''.disk 0 (
            committed-IsAccounted w''
              (transaction d.complete_durable (complete identity t d.complete_time) w'.db)
              (complete-IsFine w'' t d.complete_time d.complete_durable b.consistent)))

    requested-IsAccounted :
        (item : QueueRecord) (expected : Option String) (w : World)
        → IsConsistent w.db
        → IsAccounted k w
            (requested identity.operation item identity expected w)
            (if same identity.queue_item_id k then 1 else 0)
    requested-IsAccounted item expected w h = record {
      consistent = ground (arith, h);
      requested = ground arith;
      kept = ground arith;
    }

    open-IsAccounted :
        (open_lease observed : Bool) (item : QueueRecord) (expected : Option String)
        (eligible : Bool) (w : World)
        → IsConsistent w.db
        → IsAccounted k w
            (deliver_open open_lease observed item identity expected eligible d w).0
            (if same identity.queue_item_id k then 1 else 0)
    open-IsAccounted true observed item expected eligible w h =
        let b = requested-IsAccounted item expected w h in
        let w' = requested identity.operation item identity expected w in
        let c =
          answered-IsAccounted item eligible w' (accepted_turn identity.operation expected d.reply)
            b.consistent in
        record {
          consistent = c.consistent;
          requested = omega (arith, b.requested, c.requested);
          kept = omega (arith, b.kept, c.kept);
        }
    open-IsAccounted false true item expected eligible w h = record {
      consistent = h;
      requested = omega arith;
      kept = omega arith;
    }
    open-IsAccounted false false item expected eligible w h =
        let c = settle-IsAccounted w h in
        record { consistent = c.consistent; requested = omega (arith, c.requested); kept = c.kept }

    -- From consistent tables, a delivery makes at most one request for the item that it was claimed
    -- for and none for another, and leaves every item that was claimed claimed: whatever the lease,
    -- app-server and the file do, no item becomes deliverable again. The tables stay consistent.
    pub deliver-IsAccounted :
        (item : QueueRecord) (expected : Option String) (eligible : Bool) (w : World)
        → IsConsistent w.db
        → IsAccounted k w
            (deliver item identity expected eligible d w).0
            (if same identity.queue_item_id k then 1 else 0)
    unfolding deliver
    deliver-IsAccounted item expected eligible w h =
        open-IsAccounted d.lease_open (observes identity.operation eligible expected) item expected
          eligible w h
