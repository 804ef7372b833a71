-- ===== src/Queue/Requests/Covered.antt =====
-- The requests for an item are covered by its claim, in memory and in the file: how a transaction, a
-- claim and the halves of a delivery keep it.
use codex_everywhere.Prelude.{
  ℕ, ◌+◌, ◌≤◌, ◌≡◌, refl, Bool, true, false, if_either, Option, none, some, String, same,
  if◌then◌else◌, arith,
}
use codex_everywhere.Queue.Rows.{
  DeliveryOperation, turn_start, turn_steer, RecordStatus, is_status, Database, QueueRecord,
  DeliveryIdentity, ClaimedDelivery, Result, ok, err,
}
use codex_everywhere.Queue.Items.{commit, transaction, get}
use codex_everywhere.Queue.Claims.{ClaimInput, claim}
use codex_everywhere.Queue.Outcomes.{complete, mark_indeterminate}
use codex_everywhere.Queue.Repository.Consistent.{IsConsistent}
use codex_everywhere.Queue.Repository.Steps.{claim-IsConsistent, claim_identity}
use codex_everywhere.Queue.Repository.Settle.{
  complete-IsConsistent, mark_indeterminate-IsConsistent,
}
use codex_everywhere.Queue.Repository.History.{left}
use codex_everywhere.Queue.Repository.History.Spent.{
  spent_at, claim-spent, complete-spent, doubt-spent,
}
use codex_everywhere.Queue.Delivery.{
  World, Delivering, Answer, filed, with_db, noted, titled, requested, repaired, repaired_read,
  repaired_mark, settle_unknown, committed, answered, deliver_open,
}
use codex_everywhere.Queue.Delivery.Outcome.{requests}

-- With `p` requests that are claimed and not made yet, and `r` retries so far.
abbrev pub IsCovered : String → ℕ → ℕ → World → Type 0
IsCovered k p r w =
    IsConsistent w.db
    × IsConsistent w.disk
    × (requests k w.log + p ≤ spent_at k w.db + r)
    × (requests k w.log + p ≤ spent_at k w.disk + r)

-- Whether a delivery is of the item.
abbrev pub own : String → DeliveryIdentity → ℕ
own k i = if same i.queue_item_id k then 1 else 0

pub weaken :
    (k : String) (p p' r r' : ℕ) (w : World)
    → p' ≤ p
    → r ≤ r'
    → IsCovered k p r w
    → IsCovered k p' r' w
weaken k p p' r r' w h l (m, d, a, b) = (m, d, omega (arith, h, l, a), omega (arith, h, l, b))

-- A transaction that gives nothing back beyond the retries.
pub transaction-IsCovered :
    {A : Type 0} (k : String) (p r r' : ℕ) (w : World) (durable : Bool)
    (body : Database → Result (Database × A))
    → IsCovered k p r w
    → r ≤ r'
    → ((next : Database) (a : A)
        → body w.db ≡ ok (next, a)
        → IsConsistent next × (spent_at k w.db + r ≤ spent_at k next + r'))
    → IsCovered k p r'
        (with_db (left (transaction durable body w.db)) (filed durable (body w.db) w))
unfolding transaction
transaction-IsCovered {A = A} k p r r' w durable body (c, d, m, f) l keep =
    go durable (body w.db) refl
  where
    go :
        (durable : Bool) (m : Result (Database × A))
        → body w.db ≡ m
        → IsCovered k p r' (with_db (left (commit durable w.db m)) (filed durable m w))
    go b (err e) q = (c, d, omega (arith, m, l), omega (arith, f, l))
    go true (ok (next, a)) q =
        let (n, s) = keep next a q in (n, n, omega (arith, m, s), omega (arith, m, s))
    go false (ok (next, a)) q =
        let (n, s) = keep next a q in (n, d, omega (arith, m, s), omega (arith, f, l))

module _ (k : String) (p r : ℕ) where
  -- A claim that is granted covers one request more, in the file too.
  abbrev pub ClaimCovered : World → Database × Result ClaimedDelivery → Type 0
  ClaimCovered w (db, err e) = IsCovered k p r (with_db db w)
  ClaimCovered w (db, ok c) = IsCovered k (own k c.identity + p) r (with_db db w)

  pub claim-ClaimCovered :
      (input : ClaimInput) (durable : Bool) (w : World)
      → IsCovered k p r w
      → ClaimCovered (filed durable (claim input w.db) w) (transaction durable (claim input) w.db)
  unfolding transaction
  claim-ClaimCovered input durable w (c, d, m, f) = go durable (claim input w.db) refl
    where
      go :
          (durable : Bool) (m : Result (Database × ClaimedDelivery))
          → claim input w.db ≡ m
          → ClaimCovered (filed durable m w) (commit durable w.db m)
      go b (err e) q = (c, d, m, f)
      go true (ok (next, x)) q =
          let n = claim-IsConsistent input w.db next x c q in
          let paid : requests k w.log + (own k x.identity + p) ≤ spent_at k next + r =
            rw (claim_identity input w.db next x q)
              (omega (arith, m, claim-spent k w.db c input next x q)) in
          (n, n, paid, paid)
      go false (ok (next, x)) q = (
        claim-IsConsistent input w.db next x c q,
        d,
        omega (arith, m, claim-spent k w.db c input next x q),
        f,
      )

  repaired-IsCovered :
      (x : QueueRecord) (w : World) → IsCovered k p r w → IsCovered k p r (repaired x w).0
  repaired-IsCovered x w h =
      if_either (λ (q : World × Answer QueueRecord). IsCovered k p r q.0)
        (is_status x.status RecordStatus.completed) h h

  repaired_mark-IsCovered :
      (id : String) (w : World) (q : Database × Result QueueRecord)
      → IsCovered k p r (with_db (left q) w)
      → IsCovered k p r (repaired_mark id w q).0
  repaired_mark-IsCovered id w (db, ok x) h = repaired-IsCovered x (with_db db w) h
  repaired_mark-IsCovered id w (db, err e) h = go (get id db)
    where
      go : (m : Result (Option QueueRecord)) → IsCovered k p r (repaired_read (with_db db w) m).0
      go (err e) = h
      go (ok none) = h
      go (ok (some x)) = repaired-IsCovered x (with_db db w) h

  module _ (identity : DeliveryIdentity) (d : Delivering) where
    settle-IsCovered :
        (w : World) → IsCovered k p r w → IsCovered k p r (settle_unknown identity d w).0
    unfolding settle_unknown
    settle-IsCovered w h =
        repaired_mark-IsCovered identity.queue_item_id
          (filed d.mark_durable (mark_indeterminate identity d.mark_time w.db) w)
          (transaction d.mark_durable (mark_indeterminate identity d.mark_time) w.db)
          (transaction-IsCovered k p r r w d.mark_durable (mark_indeterminate identity d.mark_time)
            h (omega arith)
            (λ n x e. (
              mark_indeterminate-IsConsistent identity w.db h.0 d.mark_time n x e,
              omega (arith, doubt-spent k w.db h.0 identity d.mark_time n x e),
            )))

    committed-IsCovered :
        (w : World) (q : Database × Result QueueRecord)
        → IsCovered k p r (with_db (left q) w)
        → IsCovered k p r (committed identity d w q).0
    committed-IsCovered w (db, ok x) h = h
    committed-IsCovered w (db, err e) h = settle-IsCovered (with_db db w) h

    noted-IsCovered :
        (operation : DeliveryOperation) (eligible : Bool) (t text : String) (w : World)
        → IsCovered k p r w
        → IsCovered k p r (titled eligible t text (noted operation t w))
    noted-IsCovered turn_start true t text w h = h
    noted-IsCovered turn_start false t text w h = h
    noted-IsCovered turn_steer true t text w h = h
    noted-IsCovered turn_steer false t text w h = h

    pub answered-IsCovered :
        (item : QueueRecord) (eligible : Bool) (w : World) (t : Option String)
        → IsCovered k p r w
        → IsCovered k p r (answered item identity eligible d w t).0
    answered-IsCovered item eligible w none h = settle-IsCovered w h
    answered-IsCovered item eligible w (some t) h =
        let w' = titled eligible t item.text (noted identity.operation t w) in
        let h' = noted-IsCovered identity.operation eligible t item.text w h in
        committed-IsCovered
          (filed d.complete_durable (complete identity t d.complete_time w'.db) w')
          (transaction d.complete_durable (complete identity t d.complete_time) w'.db)
          (transaction-IsCovered k p r r w' d.complete_durable (complete identity t d.complete_time)
            h' (omega arith)
            (λ n x e. (
              complete-IsConsistent identity w'.db h'.0 t d.complete_time n x e,
              omega (arith, complete-spent k w'.db h'.0 identity t d.complete_time n x e),
            )))

    -- The request uses what the claim covers.
    pub requested-IsCovered :
        (operation : DeliveryOperation) (item : QueueRecord) (expected : Option String) (w : World)
        → IsCovered k (own k identity + p) r w
        → IsCovered k p r (requested operation item identity expected w)
    requested-IsCovered turn_start item expected w (c, f, a, b) =
        (c, f, omega (arith, a), omega (arith, b))
    requested-IsCovered turn_steer item (some t) w (c, f, a, b) =
        (c, f, omega (arith, a), omega (arith, b))
    requested-IsCovered turn_steer item none w (c, f, a, b) =
        (c, f, omega (arith, a), omega (arith, b))

    pub closed-IsCovered :
        (observed : Bool) (item : QueueRecord) (expected : Option String) (eligible : Bool)
        (w : World)
        → IsCovered k p r w
        → IsCovered k p r (deliver_open false observed item identity expected eligible d w).0
    closed-IsCovered true item expected eligible w h = h
    closed-IsCovered false item expected eligible w h = settle-IsCovered w h
