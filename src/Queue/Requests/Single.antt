-- ===== src/Queue/Requests/Single.antt =====
-- The requests to the Queue service that are one transaction each, and how they keep the account of an
-- item.
use codex_everywhere.Prelude.{
  ℕ, ◌+◌, Bool, true, false, not, if_either, Option, none, some, String, arith,
}
use codex_everywhere.Queue.Rows.{
  Disposition, Database, QueueRecord, state_conflict, Result, ok, err,
}
use codex_everywhere.Queue.Items.{transaction, add, remove}
use codex_everywhere.Queue.Outcomes.{recover_delivering, acknowledge_indeterminate}
use codex_everywhere.Queue.Repository.Steps.{add-IsConsistent, remove-IsConsistent}
use codex_everywhere.Queue.Repository.Recover.{recover-IsConsistent, acknowledge-IsConsistent}
use codex_everywhere.Queue.Repository.History.{left, acknowledges, retries_item}
use codex_everywhere.Queue.Repository.History.Spent.{
  add-spent, remove-spent, recover-spent, acknowledge-spent,
}
use codex_everywhere.Queue.Delivery.{World, Answer, filed, with_db}
use codex_everywhere.Queue.Service.{Surroundings, Snapshot}
use codex_everywhere.Queue.Requests.{
  Adding, start, started_with, new_item, add_at, added, add_snapshot, add_item, removed_with,
  remove_item, acknowledged_with, acknowledge,
}
use codex_everywhere.Queue.Requests.Covered.{IsCovered, transaction-IsCovered}

module _ (k : String) (p r : ℕ) (w : World) (h : IsCovered k p r w) where
  pub start-IsCovered :
      (closed durable : Bool) (now : ℕ) → IsCovered k p r (start closed durable now w).0
  unfolding start
  start-IsCovered closed durable now = if_either C w.started h (
      if_either C closed h (
        go (filed durable (recover_delivering now w.db) w)
          (transaction durable (recover_delivering now) w.db)
          (transaction-IsCovered k p r r w durable (recover_delivering now) h (omega arith)
            (λ n x e. (
              recover-IsConsistent now w.db h.0 n x e,
              omega (arith, recover-spent k w.db h.0 now n x e),
            )))))
    where
      C : World × Answer ℕ → Type 0
      C q = IsCovered k p r q.0

      go :
          (w : World) (q : Database × Result ℕ)
          → IsCovered k p r (with_db (left q) w)
          → C (started_with w q)
      go w (db, err e) f = f
      go w (db, ok n) f = f

  pub add-IsCovered : (s : Surroundings) (a : Adding) → IsCovered k p r (add_item s a w).0
  unfolding add_item
  add-IsCovered s a = if_either C (not s.allowed) h (if_either C (not s.leased) h (go s.snapshot))
    where
      C : World × Answer QueueRecord → Type 0
      C q = IsCovered k p r q.0

      after :
          (w : World) (q : Database × Result QueueRecord)
          → IsCovered k p r (with_db (left q) w)
          → C (added w q)
      after w (db, err e) f = f
      after w (db, ok x) f = f

      at_path : (m : Option String) → C (add_at a w m)
      at_path none = h
      at_path (some path) =
          after (filed a.durable (add (new_item a path) w.db) w)
            (transaction a.durable (add (new_item a path)) w.db)
            (transaction-IsCovered k p r r w a.durable (add (new_item a path)) h (omega arith)
              (λ n x e. (
                add-IsConsistent (new_item a path) w.db n x h.0 e,
                omega (arith, add-spent k w.db h.0 (new_item a path) n x e),
              )))

      go : (m : Option Snapshot) → C (add_snapshot s a w m)
      go none = h
      go (some snapshot) = at_path (s.authorize snapshot.workspace_path)

  pub remove-IsCovered :
      (durable : Bool) (id : String) → IsCovered k p r (remove_item durable id w).0
  unfolding remove_item
  remove-IsCovered durable id =
      go (filed durable (remove id w.db) w) (transaction durable (remove id) w.db) (
        transaction-IsCovered k p r r w durable (remove id) h (omega arith) (λ n b e.
          (remove-IsConsistent id w.db n b h.0 e, omega (arith, remove-spent k w.db h.0 id n b e))))
    where
      go :
          (w : World) (q : Database × Result Bool)
          → IsCovered k p r (with_db (left q) w)
          → IsCovered k p r (removed_with id w q).0
      go w (db, err e) f = f
      go w (db, ok true) f = f
      go w (db, ok false) f = f

  -- Only an acknowledgment gives an item back.
  pub acknowledge-IsCovered :
      (durable : Bool) (id : String) (d : Disposition) (now : ℕ)
      → IsCovered k p
          (retries_item k (true, acknowledges id d now) + r)
          (acknowledge durable id d now w).0
  unfolding acknowledge
  acknowledge-IsCovered durable id d now =
      go (filed durable (acknowledge_indeterminate id d now w.db) w)
        (transaction durable (acknowledge_indeterminate id d now) w.db)
        (transaction-IsCovered k p r r' w durable (acknowledge_indeterminate id d now) h
          (omega arith)
          (λ n x e. (
            acknowledge-IsConsistent now w.db h.0 id d n x e,
            omega (arith, acknowledge-spent k w.db h.0 id d now n x e),
          )))
    where
      r' : ℕ
      r' = retries_item k (true, acknowledges id d now) + r

      go :
          (w : World) (q : Database × Result QueueRecord)
          → IsCovered k p r' (with_db (left q) w)
          → IsCovered k p r' (acknowledged_with w q).0
      go w (db, err (state_conflict i)) f = f
      go w (db, err _) f = f
      go w (db, ok x) f = f
