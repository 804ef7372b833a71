-- ===== src/Mutation/InFlight/Replay.antt =====
-- A durable call of apps/agent/src/v2/services/mutation-middleware.ts that has ended, and comes
-- again.
use codex_everywhere.Prelude.{
  ℕ, ◌≤◌, ◌<◌, ◌+◌, ◌≡◌, refl, true, false, List, [], ◌∷◌, Option, none, some, String, same, Bool,
  if◌then◌else◌, if_either, arith, All,
}
use codex_everywhere.Table.{lookup, at, delete, find}
use codex_everywhere.Table.Laws.{lookup-delete, key-lookup, at-lookup, lookup-update}
use codex_everywhere.Mutation.Receipts.{
  StoredOutcome, ReceiptRow, receipt_key, is_pending, recover_row, recover_pending, status,
  Invocation,
}
use codex_everywhere.Mutation.Receipts.Settled.{status-Stays}
use codex_everywhere.Mutation.Durable.{
  Circumstances, rejected, internal_error, is_internal, capture_outcome, unwrap_outcome,
  durable_result_ttl_ms,
}
use codex_everywhere.Mutation.InFlight.{
  Server, Response, at_once, call_key, admitted, run_durable, ended, end_call, Event, arrives, ends,
  asks, restarts, reopened, handle, run,
}
use codex_everywhere.Mutation.Receipts.Laws.{Yields}
use codex_everywhere.Mutation.InFlight.Serving.{IsServing}
use codex_everywhere.Mutation.InFlight.Running.{handle-IsServing}
use codex_everywhere.Mutation.InFlight.Settled.{
  Has, IsSettled, IsResult, begun-found, ended_found, commit-found, replayed, ended_call,
  settled_row, completed_row, owned,
}

-- The claims and queries of an event come no later than a time.
abbrev pub IsBy : ℕ → Event → Type 0
IsBy end (arrives i now durable) = now ≤ end
IsBy end (asks key now durable) = now ≤ end
IsBy end (ends key c) = Unit
IsBy end (restarts now durable) = Unit

module _ (i : Invocation) (o : StoredOutcome) (end : ℕ) (row : ReceiptRow)
    (x : IsResult i o end row) where
  abbrev Settled : Server → Type 0
  Settled = IsSettled i o end row

  abbrev Found : Server → Type 0
  Found s = Has i o end row s.world × (lookup call_key i.operation_key s.in_flight ≡ none)

  still_absent :
      (key : String) (s : Server)
      → Settled s
      → lookup call_key i.operation_key (delete (at call_key key) s.in_flight) ≡ none
  still_absent key s h = ground (
    arith,
    h.absent,
    lookup-delete call_key i.operation_key (at call_key key) s.in_flight
        (h.serving.calls_keyed i.operation_key),
  )

  recovered-found :
      (now : ℕ) (rows : List ReceiptRow)
      → lookup receipt_key i.operation_key rows ≡ some row
      → Yields (λ p. lookup receipt_key i.operation_key p.0 ≡ some row) (recover_pending now rows)
  unfolding recover_pending
  recovered-found now rows f = ground (
    arith,
    f,
    x.is_completed,
    lookup-update receipt_key is_pending (recover_row now) (λ r. refl) i.operation_key rows,
  )

  handle-Found : (e : Event) (s : Server) → Settled s → IsBy end e → Found (handle e s)
  unfolding handle run_durable end_call recover_pending find
  handle-Found (arrives j now durable) s h le = go (lookup call_key j.operation_key s.in_flight)
    where
      go : (m : Option Invocation) → Found (admitted j now durable s m).0
      go (some running) =
          if_either (λ (r : Server × Response). Found r.0)
            (same running.request_fingerprint j.request_fingerprint)
            ((h.found, h.found_in_file), h.absent) ((h.found, h.found_in_file), h.absent)
      go none = begun-found i o end row x s j now durable h le
  handle-Found (ends key c) s h le = go (lookup call_key key s.in_flight)
    where
      go : (m : Option Invocation) → Found (ended key c s m).0
      go none = ((h.found, h.found_in_file), h.absent)
      go (some j) = (
        ended_found i o end row x j c (capture_outcome c.execution) s.world
            (h.found, h.found_in_file),
        still_absent key s h,
      )
  handle-Found (asks key now durable) s h le = (
    commit-found i o end row x s.world durable (status key now s.world.receipts)
        (h.found, h.found_in_file)
        (status-Stays i.operation_key end row s.world.receipts h.serving.keyed h.found now le
          x.lasts key),
    h.absent,
  )
  handle-Found (restarts now durable) s h le = (
    commit-found i o end row x (reopened s.world) durable (recover_pending now s.world.file)
        (h.found_in_file, h.found_in_file) (recovered-found now s.world.file h.found_in_file),
    refl,
  )

  run-IsSettled :
      (es : List Event) (s : Server) → Settled s → All (IsBy end) es → Settled (run es s)
  unfolding run
  run-IsSettled [] s h by = h
  run-IsSettled (e ∷ es) s h by =
      let f = handle-Found e s h by.0 in
      run-IsSettled es (handle e s)
        (record {
          serving = handle-IsServing s h.serving e;
          found = f.0.0;
          found_in_file = f.0.1;
          absent = f.1;
        })
        by.1

module _ (s : Server) (key : String) (i : Invocation) (c : Circumstances) (h : IsServing s)
    (q : lookup call_key key s.in_flight ≡ some i) (d : c.complete_durable ≡ true)
    (n : is_internal (capture_outcome c.execution) ≡ false) where
  row_of : ReceiptRow
  row_of = completed_row s h key i c q d n

  own_key : i.operation_key ≡ key
  own_key = key-lookup call_key key s.in_flight i q

  row_of-IsResult :
      (end : ℕ)
      → end < c.complete_time + durable_result_ttl_ms
      → IsResult i (capture_outcome c.execution) end row_of
  unfolding row_of
  row_of-IsResult end window =
      let r = owned s h key i c q d n in
      record {
        for_it = ground (arith, r.1.1);
        is_completed = refl;
        result = refl;
        lasts = ground (arith, window);
      }

  found_at :
      (k : String)
      → k ≡ key
      → (lookup receipt_key k (end_call key c s).0.world.receipts ≡ some row_of)
        × (lookup receipt_key k (end_call key c s).0.world.file ≡ some row_of)
  unfolding row_of
  found_at k p = (
    cc (p, ended_call s h key i c q d n, settled_row s h key i c q d n),
    cc (p, ended_call s h key i c q d n, settled_row s h key i c q d n),
  )

  ended-IsSettled :
      (end : ℕ) → IsSettled i (capture_outcome c.execution) end row_of (end_call key c s).0
  unfolding row_of handle
  ended-IsSettled end =
      let e = ended_call s h key i c q d n in
      record {
        serving = handle-IsServing s h (ends key c);
        found = (found_at i.operation_key own_key).0;
        found_in_file = (found_at i.operation_key own_key).1;
        absent = ground (
          arith,
          e,
          own_key,
          lookup-delete call_key key (at call_key key) s.in_flight (h.calls_keyed key),
          at-lookup call_key key s.in_flight,
        );
      }

-- Where every running call has its receipt, a call that ends with its outcome written answers with
-- that outcome; and whatever calls, endings, status queries and restarts come in the 24 hours after
-- that, the same call again runs no handler and is answered at once: with the same outcome, or with an
-- internal error where the file cannot be written then.
pub end-replays :
    (s : Server) (key : String) (i : Invocation) (c : Circumstances) (es : List Event) (end now : ℕ)
    (durable : Bool)
    → IsServing s
    → lookup call_key key s.in_flight ≡ some i
    → c.complete_durable ≡ true
    → is_internal (capture_outcome c.execution) ≡ false
    → end < c.complete_time + durable_result_ttl_ms
    → All (IsBy end) es
    → now ≤ end
    → let first = end_call key c s in
      let later = run es first.0 in
      let again = run_durable i now durable later in
      (first.1 ≡ some (unwrap_outcome (capture_outcome c.execution)))
      × ((again.1
            ≡ at_once (
                if durable
                then unwrap_outcome (capture_outcome c.execution)
                else rejected internal_error))
          × (again.0.world.executed ≡ later.world.executed))
end-replays s key i c es end now durable h q d n window by le =
    let x = row_of-IsResult s key i c h q d n end window in
    let o = capture_outcome c.execution in
    let row = row_of s key i c h q d n in
    let settled =
      run-IsSettled i o end row x es (end_call key c s).0 (ended-IsSettled s key i c h q d n end)
        by in
    (
      cc (ended_call s h key i c q d n),
      replayed i o end row x (run es (end_call key c s).0) now durable settled le,
    )
