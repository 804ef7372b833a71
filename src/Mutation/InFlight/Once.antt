-- ===== src/Mutation/InFlight/Once.antt =====
-- The runs of a handler under one operation key in apps/agent/src/v2/services/mutation-
-- middleware.ts.
use codex_everywhere.Prelude.{
  ℕ, ◌+◌, ◌≤◌, ◌<◌, ◌≡◌, Bool, true, false, List, [], ◌∷◌, Option, none, some, String, same,
  if◌then◌else◌, if_either, All, arith,
}
use codex_everywhere.Table.{lookup}
use codex_everywhere.Table.Laws.{IsKeyed}
use codex_everywhere.Mutation.Receipts.{
  ReceiptRow, receipt_key, Claim, execute, claim_pending, claim_completed, claim_indeterminate,
  StoredOutcome, receipt_conflict, Result, ok, err, Invocation, claim, complete, mark_indeterminate,
  recover_pending, status,
}
use codex_everywhere.Mutation.Receipts.Laws.{
  stands, Yields, Kept, claim-Kept, status-Kept, complete-Kept, mark_indeterminate-Kept,
  recover_pending-Kept, Told,
}
use codex_everywhere.Mutation.Durable.{
  World, Answer, Circumstances, Started, executing, answers, Tried, done, refused, unwritten,
  commit, filed, transact, claimed, start_durable, record_outcome, completed_with, outcome_unknown,
  is_internal, capture_outcome, expiry, with_receipts, durable_result_ttl_ms,
}
use codex_everywhere.Mutation.InFlight.{
  Server, Response, call_key, started, admitted, run_durable, ended, end_call, Event, arrives, ends,
  asks, restarts, reopened, handle, run,
}

-- The runs of the handler under a key.
unfoldable pub runs : String → List String → ℕ
runs k [] = 0
runs k (key ∷ keys) = (if same key k then 1 else 0) + runs k keys

-- The times of an event lie between a time and an end.
abbrev pub IsWithin : ℕ → ℕ → Event → Type 0
IsWithin start end (arrives i now durable) = now ≤ end
IsWithin start end (ends key c) = start ≤ c.complete_time
IsWithin start end (asks key now durable) = now ≤ end
IsWithin start end (restarts now durable) = Unit

module _ (k : String) (end : ℕ) where
  -- What ran under k has a receipt that stands.
  pub record Guarded (w : World) : Type 0 where
    pub keyed : IsKeyed receipt_key w.receipts
    pub once : runs k w.executed ≤ stands k end w.receipts
    pub file_keyed : IsKeyed receipt_key w.file
    pub file_once : runs k w.executed ≤ stands k end w.file

  -- A transaction on the receipts.
  commit-Guarded {ℓ} :
      {A : Type ℓ} (w : World) (durable : Bool) (m : Result (List ReceiptRow × A)) (h : Guarded w)
      → Yields (λ p. Kept k end w.receipts h.keyed 0 p.0) m
      → Guarded (transact durable m w)
  commit-Guarded w durable (err e) h y = h
  commit-Guarded w false (ok (rows, a)) h y = record {
    keyed = y.0;
    once = omega (arith, h.once, y.1);
    file_keyed = h.file_keyed;
    file_once = h.file_once;
  }
  commit-Guarded w true (ok (rows, a)) h y = record {
    keyed = y.0;
    once = omega (arith, h.once, y.1);
    file_keyed = y.0;
    file_once = omega (arith, h.once, y.1);
  }

  outcome_unknown-Guarded :
      (i : Invocation) (c : Circumstances) (w : World)
      → Guarded w
      → Guarded (outcome_unknown i c w).0
  unfolding outcome_unknown
  outcome_unknown-Guarded i c w h =
      commit-Guarded w c.mark_durable (mark_indeterminate i c.mark_time w.receipts) h
        (mark_indeterminate-Kept k end w.receipts h.keyed i c.mark_time)

  -- Recording an outcome, the completion written or not.
  record_outcome-Guarded :
      (i : Invocation) (c : Circumstances) (outcome : StoredOutcome) (w : World)
      → end < expiry c
      → Guarded w
      → Guarded (record_outcome i c outcome w).0
  unfolding record_outcome
  record_outcome-Guarded i c outcome w lt h =
      if_either (λ (r : World × Answer). Guarded r.0) (is_internal outcome)
        (outcome_unknown-Guarded i c w h)
        (go (filed c.complete_durable m w) (commit c.complete_durable w.receipts m) (
          commit-Guarded w c.complete_durable m h
            (complete-Kept k end w.receipts h.keyed i outcome c.complete_time (expiry c) lt)))
    where
      m : Result (List ReceiptRow × Unit {0})
      m = complete i outcome c.complete_time (expiry c) w.receipts

      go :
          (v : World) (p : List ReceiptRow × Tried (Unit {0}))
          → Guarded (with_receipts p.0 v)
          → Guarded (completed_with i c outcome v p).0
      go v (rows, done _) g = g
      go v (rows, refused e) g = outcome_unknown-Guarded i c (with_receipts rows v) g
      go v (rows, unwritten) g = outcome_unknown-Guarded i c (with_receipts rows v) g

  -- Only a key that had no standing receipt is executed, and then it has one.
  start_durable-Guarded :
      (i : Invocation) (now : ℕ) (durable : Bool) (w : World)
      → now ≤ end
      → Guarded w
      → Guarded (start_durable i now durable w).0
  unfolding start_durable runs
  start_durable-Guarded i now durable w le h =
      go durable (claim i now w.receipts) (claim-Kept k end w.receipts h.keyed now le i)
    where
      go :
          (d : Bool) (m : Result (List ReceiptRow × Claim))
          → Told k end w.receipts h.keyed now le i m
          → Guarded (claimed i (filed d m w) (commit d w.receipts m)).0
      go d (err receipt_conflict) y = h
      go d (err _) y = h
      go false (ok (rows, c)) y = record {
        keyed = y.0;
        once = omega (arith, h.once, y.1);
        file_keyed = h.file_keyed;
        file_once = h.file_once;
      }
      go true (ok (rows, execute)) y = record {
        keyed = y.0;
        once = ground (arith, h.once, y.1);
        file_keyed = y.0;
        file_once = ground (arith, h.once, y.1);
      }
      go true (ok (rows, claim_pending t)) y = commit-Guarded w true (ok (rows, t)) h y
      go true (ok (rows, claim_completed o)) y = commit-Guarded w true (ok (rows, o)) h y
      go true (ok (rows, claim_indeterminate t)) y = commit-Guarded w true (ok (rows, t)) h y

  handle-Guarded :
      (start : ℕ) (e : Event) (s : Server)
      → end < start + durable_result_ttl_ms
      → IsWithin start end e
      → Guarded s.world
      → Guarded (handle e s).world
  unfolding handle run_durable end_call
  handle-Guarded start (arrives i now durable) s window within h =
      go (lookup call_key i.operation_key s.in_flight)
    where
      go : (m : Option Invocation) → Guarded (admitted i now durable s m).0.world
      go (some running) =
          if_either (λ (r : Server × Response). Guarded r.0.world)
            (same running.request_fingerprint i.request_fingerprint) h h
      go none =
          begun (start_durable i now durable s.world)
            (start_durable-Guarded i now durable s.world within h)
        where
          begun : (p : World × Started) → Guarded p.0 → Guarded (started i s p).0.world
          begun (w, answers a) g = g
          begun (w, executing) g = g
  handle-Guarded start (ends key c) s window within h = go (lookup call_key key s.in_flight)
    where
      go : (m : Option Invocation) → Guarded (ended key c s m).0.world
      go none = h
      go (some i) = record_outcome-Guarded i c (capture_outcome c.execution) s.world (omega arith) h
  handle-Guarded start (asks key now durable) s window within h =
      commit-Guarded s.world durable (status key now s.world.receipts) h
        (status-Kept k end s.world.receipts h.keyed now within key)
  handle-Guarded start (restarts now durable) s window within h =
      commit-Guarded (reopened s.world) durable (recover_pending now s.world.file)
        (record {
          keyed = h.file_keyed;
          once = h.file_once;
          file_keyed = h.file_keyed;
          file_once = h.file_once;
        })
        (recover_pending-Kept k end s.world.file h.file_keyed now)

  run-Guarded :
      (start : ℕ) (es : List Event) (s : Server)
      → end < start + durable_result_ttl_ms
      → All (IsWithin start end) es
      → Guarded s.world
      → Guarded (run es s).world
  unfolding run
  run-Guarded start [] s window within h = h
  run-Guarded start (e ∷ es) s window within h =
      run-Guarded start es (handle e s) window within.1 (handle-Guarded start e s window within.0 h)

-- From receipts with distinct keys, in the open database and in the file, and an empty log of handlers,
-- whatever calls, endings, status queries and restarts come within the 24 hours that a completed
-- receipt is kept, and whatever writes of the file fail, the handler of an operation key runs once
-- at most. A restart reads the file, and so loses what was not written.
pub runs-le-one :
    (k : String) (start end : ℕ) (es : List Event) (s : Server)
    → IsKeyed receipt_key s.world.receipts
    → IsKeyed receipt_key s.world.file
    → s.world.executed ≡ []
    → end < start + durable_result_ttl_ms
    → All (IsWithin start end) es
    → runs k (run es s).world.executed ≤ 1
unfolding runs
runs-le-one k start end es s keyed file_keyed none_yet window within =
    let fresh : Guarded k end s.world = record {
      keyed = keyed;
      once = rw none_yet (omega arith);
      file_keyed = file_keyed;
      file_once = rw none_yet (omega arith);
    } in
    let g = run-Guarded k end start es s window within fresh in ground (arith, g.once)
