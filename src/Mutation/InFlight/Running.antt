-- ===== src/Mutation/InFlight/Running.antt =====
-- The receipts of running calls in apps/agent/src/v2/services/mutation-middleware.ts.
use codex_everywhere.Prelude.{
  ℕ, ◌≡◌, refl, Bool, false, List, [], ◌∷◌, true, Option, none, some, String, same, if_either,
  text_discrete, arith,
}
use codex_everywhere.Table.{lookup, at, delete, modified, find}
use codex_everywhere.Table.Laws.{IsKeyed, lookup-delete, modified-delete-le, key-lookup, at-lookup}
use codex_everywhere.Mutation.Receipts.{
  ReceiptRow, receipt_key, StoredOutcome, Result, ok, err, Invocation, owns, complete,
  mark_indeterminate, recover_pending, status,
}
use codex_everywhere.Mutation.Receipts.Laws.{
  Yields, complete-Kept, mark_indeterminate-Kept, status-Kept, recover_pending-Kept,
}
use codex_everywhere.Mutation.Receipts.Settled.{
  status-Stays, complete-Stays, mark_indeterminate-Stays,
}
use codex_everywhere.Mutation.Durable.{
  World, Answer, Circumstances, Tried, done, refused, unwritten, commit, filed, transact,
  record_outcome, completed_with, outcome_unknown, is_internal, capture_outcome, expiry,
  with_receipts,
}
use codex_everywhere.Mutation.InFlight.{
  Server, Response, call_key, admitted, run_durable, ended, end_call, Event, arrives, ends, asks,
  restarts, reopened, handle, run,
}
use codex_everywhere.Mutation.InFlight.Serving.{
  IsServing, commit-IsServing, after, pending_lasts, start-IsServing, Yields-map,
}

-- The call that ends is out of the map; what it records is under its own key.
module _ (i : Invocation) (c : Circumstances) (outcome : StoredOutcome) where
  abbrev pub IsFree : Server → Type 0
  IsFree s = lookup call_key i.operation_key s.in_flight ≡ none

  others :
      (s : Server) (k : String) (j : Invocation) (r : ReceiptRow)
      → IsFree s
      → lookup call_key k s.in_flight ≡ some j
      → lookup receipt_key k s.world.receipts ≡ some r
      → owns i r ≡ false
  others s k j r free q found = elim (text_discrete i.operation_key k) [
    | yes p ↦ ground (arith, free, q, p)
    | no n ↦ ground (arith, key-lookup receipt_key k s.world.receipts r found)
  ]

  unknown-IsServing :
      (s : Server)
      → IsServing s
      → IsFree s
      → IsServing (record s { world = (outcome_unknown i c s.world).0 })
  unfolding outcome_unknown
  unknown-IsServing s h free =
      commit-IsServing s c.mark_durable (mark_indeterminate i c.mark_time s.world.receipts) h
        (Yields-map (λ a y. y.0) (mark_indeterminate i c.mark_time s.world.receipts)
          (mark_indeterminate-Kept "" 0 s.world.receipts h.keyed i c.mark_time))
        (λ k j r q found p.
          mark_indeterminate-Stays k r s.world.receipts found i (others s k j r free q found)
            c.mark_time)

  record_outcome-IsServing :
      (s : Server)
      → IsServing s
      → IsFree s
      → IsServing (record s { world = (record_outcome i c outcome s.world).0 })
  unfolding record_outcome
  record_outcome-IsServing s h free =
      if_either (λ (r : World × Answer). IsServing (record s { world = r.0 })) (is_internal outcome)
        (unknown-IsServing s h free)
        (go (filed c.complete_durable m s.world) (commit c.complete_durable s.world.receipts m)
          stays)
    where
      m : Result (List ReceiptRow × Unit {0})
      m = complete i outcome c.complete_time (expiry c) s.world.receipts

      stays : IsServing (after s c.complete_durable m h)
      stays =
          commit-IsServing s c.complete_durable m h
            (Yields-map (λ a y. y.0) m
              (complete-Kept "" 0 s.world.receipts h.keyed i outcome c.complete_time (expiry c)
                (omega arith)))
            (λ k j r q found p.
              complete-Stays k r s.world.receipts found i (others s k j r free q found) outcome
                c.complete_time (expiry c))

      go :
          (v : World) (p : List ReceiptRow × Tried (Unit {0}))
          → IsServing (record s { world = with_receipts p.0 v })
          → IsServing (record s { world = (completed_with i c outcome v p).0 })
      go v (rows, done _) g = g
      go v (rows, refused e) g =
          unknown-IsServing (record s { world = with_receipts rows v }) g free
      go v (rows, unwritten) g =
          unknown-IsServing (record s { world = with_receipts rows v }) g free

module _ (s : Server) (h : IsServing s) where
  dropped-IsServing :
      (key : String) → IsServing (record s { in_flight = delete (at call_key key) s.in_flight })
  dropped-IsServing key = record {
    keyed = h.keyed;
    file_keyed = h.file_keyed;
    calls_keyed = λ k.
        omega (arith, h.calls_keyed k, modified-delete-le call_key k (at call_key key) s.in_flight);
    carried = λ k. ground (
      arith,
      h.carried k,
      lookup-delete call_key k (at call_key key) s.in_flight (h.calls_keyed k),
    );
  }

  dropped-IsFree :
      (key : String) → lookup call_key key (delete (at call_key key) s.in_flight) ≡ none
  dropped-IsFree key = ground (
    arith,
    lookup-delete call_key key (at call_key key) s.in_flight (h.calls_keyed key),
    at-lookup call_key key s.in_flight,
  )

  nothing_runs :
      {rows file : List ReceiptRow}
      → IsKeyed receipt_key rows
      → IsKeyed receipt_key file
      → IsServing
          (record { world = record s.world { receipts = rows; file = file }; in_flight = [] })
  unfolding find modified
  nothing_runs a b = record {
    keyed = a;
    file_keyed = b;
    calls_keyed = λ k. omega arith;
    carried = λ k. refl;
  }

  pub handle-IsServing : (e : Event) → IsServing (handle e s)
  unfolding handle run_durable end_call find modified
  handle-IsServing (arrives i now durable) = go (lookup call_key i.operation_key s.in_flight) refl
    where
      go :
          (m : Option Invocation)
          → lookup call_key i.operation_key s.in_flight ≡ m
          → IsServing (admitted i now durable s m).0
      go (some running) q =
          if_either (λ (r : Server × Response). IsServing r.0)
            (same running.request_fingerprint i.request_fingerprint) h h
      go none q = start-IsServing s h i now durable q
  handle-IsServing (ends key c) = go (lookup call_key key s.in_flight) refl
    where
      go :
          (m : Option Invocation)
          → lookup call_key key s.in_flight ≡ m
          → IsServing (ended key c s m).0
      go none q = h
      go (some i) q =
          record_outcome-IsServing i c (capture_outcome c.execution)
            (record s { in_flight = delete (at call_key key) s.in_flight }) (dropped-IsServing key)
            (rw (key-lookup call_key key s.in_flight i q) (dropped-IsFree key))
  handle-IsServing (asks key now durable) =
      commit-IsServing s durable (status key now s.world.receipts) h
        (Yields-map (λ a y. y.0) (status key now s.world.receipts)
          (status-Kept "" now s.world.receipts h.keyed now (omega arith) key))
        (λ k j r c q p.
          status-Stays k now r s.world.receipts h.keyed q now (omega arith) (pending_lasts now r p)
            key)
  handle-IsServing (restarts now durable) = go durable (recover_pending now s.world.file) (
      Yields-map (λ a y. y.0) (recover_pending now s.world.file)
        (recover_pending-Kept "" 0 s.world.file h.file_keyed now))
    where
      go :
          (d : Bool) (m : Result (List ReceiptRow × ℕ))
          → Yields (λ p. IsKeyed receipt_key p.0) m
          → IsServing (record { world = transact d m (reopened s.world); in_flight = [] })
      go d (err e) y = nothing_runs h.file_keyed h.file_keyed
      go false (ok (rows, n)) y = nothing_runs y h.file_keyed
      go true (ok (rows, n)) y = nothing_runs y y

-- Where every call whose handler runs has the pending receipt that it claimed, and the keys of receipts
-- and of running calls are distinct, this holds after any calls, endings, status queries and restarts.
pub run-IsServing : (es : List Event) (s : Server) → IsServing s → IsServing (run es s)
unfolding run
run-IsServing [] s h = h
run-IsServing (e ∷ es) s h = run-IsServing es (handle e s) (handle-IsServing s h e)
