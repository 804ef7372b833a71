-- ===== src/Mutation/InFlight/Settled.antt =====
-- The receipt of an operation key that is settled, in apps/agent/src/v2/services/mutation-
-- middleware.ts.
use codex_everywhere.Prelude.{
  ℕ, ◌≤◌, ◌≡◌, refl, Bool, true, false, ◌&&◌, if◌then◌else◌, List, Option, none, some, String, same,
  if_either, Option-cases, inl, inr, arith,
}
use codex_everywhere.Table.{lookup, at, delete, modified, find, update}
use codex_everywhere.Table.Laws.{key-lookup, modified-at, lookup-update}
use codex_everywhere.Mutation.Receipts.{
  ReceiptRow, ReceiptStatus, pending, completed, indeterminate, execute, claim_pending,
  claim_completed, claim_indeterminate, unchanged, claim_result, claim_status, receipt_conflict,
  receipt_key, is_status, is_expired, StoredOutcome, Result, ok, err, Invocation, owns, complete,
  is_for, complete_row, claim, Claim, claim_row, read_receipt, prune_expired, mark_indeterminate,
}
use codex_everywhere.Mutation.Receipts.Laws.{Yields}
use codex_everywhere.Mutation.Receipts.Settled.{
  complete-Stays, mark_indeterminate-Stays, claim-Stays, prune-Stays,
}
use codex_everywhere.Mutation.Durable.{
  World, Answer, Circumstances, Tried, done, refused, unwritten, commit, filed, transact, rejected,
  internal_error, record_outcome, completed_with, outcome_unknown, is_internal, capture_outcome,
  expiry, with_receipts, unwrap_outcome, start_durable, claimed,
}
use codex_everywhere.Mutation.InFlight.{Server, at_once, call_key, started, run_durable, end_call}
use codex_everywhere.Mutation.InFlight.Serving.{IsServing}

-- A running call whose outcome is written answers with it, and its receipt is completed.
module _ (s : Server) (h : IsServing s) (key : String) (i : Invocation) (c : Circumstances)
    (q : lookup call_key key s.in_flight ≡ some i) (d : c.complete_durable ≡ true)
    (n : is_internal (capture_outcome c.execution) ≡ false) where
  abbrev pub outcome : StoredOutcome
  outcome = capture_outcome c.execution

  pub owned :
      (r : ReceiptRow) × ((lookup receipt_key key s.world.receipts ≡ some r) × (owns i r ≡ true))
  owned = elim (Option-cases (lookup receipt_key key s.world.receipts)) [
    | inl e ↦ ground (arith, h.carried key, q, e)
    | inr found ↦ (found.0, (found.1, ground (arith, h.carried key, q, found.1)))
  ]

  one_modified : modified (owns i) s.world.receipts ≡ 1
  one_modified =
      let m =
        modified-at receipt_key i.operation_key (λ r. is_for i r && is_status r.status pending)
          s.world.receipts (h.keyed i.operation_key) in
      ground (arith, m, owned.1.0, owned.1.1, key-lookup call_key key s.in_flight i q)

  abbrev pub completed_row : ReceiptRow
  completed_row = complete_row outcome c.complete_time (expiry c) owned.0

  -- Its receipt is completed, and lasts as long as a completed receipt does.
  abbrev pub settled_rows : List ReceiptRow
  settled_rows = update (owns i) (complete_row outcome c.complete_time (expiry c)) s.world.receipts

  pub ended_call : end_call key c s ≡ (
    record {
      world = with_receipts settled_rows (record s.world { file = settled_rows });
      in_flight = delete (at call_key key) s.in_flight;
    },
    some (unwrap_outcome outcome),
  )
  unfolding end_call record_outcome complete
  ended_call = ground (arith, q, d, n, one_modified)

  pub settled_row : lookup receipt_key key settled_rows ≡ some completed_row
  settled_row = ground (
    arith,
    lookup-update receipt_key (owns i) (complete_row outcome c.complete_time (expiry c)) (λ r. refl)
        key s.world.receipts,
    owned.1.0,
    owned.1.1,
  )

-- The receipt of a settled operation key, up to a time.
module _ (i : Invocation) (outcome : StoredOutcome) (end : ℕ) (row : ReceiptRow) where
  abbrev pub key_of : String
  key_of = i.operation_key

  pub record IsSettled (s : Server) : Type 0 where
    pub serving : IsServing s
    pub found : lookup receipt_key key_of s.world.receipts ≡ some row
    pub found_in_file : lookup receipt_key key_of s.world.file ≡ some row
    pub absent : lookup call_key key_of s.in_flight ≡ none

  -- What is known of the receipt itself.
  pub record IsResult : Type 0 where
    pub for_it : is_for i row ≡ true
    pub is_completed : is_status row.status completed ≡ true
    pub result : row.result ≡ some outcome
    pub lasts : is_expired end row ≡ false

  -- The receipt is in the open database and in the file.
  abbrev pub Has : World → Type 0
  Has w =
      (lookup receipt_key key_of w.receipts ≡ some row)
      × (lookup receipt_key key_of w.file ≡ some row)

  module _ (x : IsResult) where
    pub not_owned : (j : Invocation) → owns j row ≡ false
    not_owned j = ground (arith, x.is_completed)

    pub commit-found {ℓ} :
        {A : Type ℓ} (w : World) (durable : Bool) (m : Result (List ReceiptRow × A))
        → Has w
        → Yields (λ p. lookup receipt_key key_of p.0 ≡ some row) m
        → Has (transact durable m w)
    commit-found w durable (err e) f y = f
    commit-found w false (ok (rows, a)) f y = (y, f.1)
    commit-found w true (ok (rows, a)) f y = (y, y)

    -- The same call again, at any time up to the end, gets the outcome at once and runs nothing; where the
    -- file cannot be written it gets an error, and runs nothing either.
    pub replayed :
        (s : Server) (now : ℕ) (durable : Bool)
        → IsSettled s
        → now ≤ end
        → ((run_durable i now durable s).1
            ≡ at_once (if durable then unwrap_outcome outcome else rejected internal_error))
          × ((run_durable i now durable s).0.world.executed ≡ s.world.executed)
    unfolding run_durable start_durable claim read_receipt
    replayed s now durable h le = ground (
      arith,
      h.absent,
      prune-Stays key_of end row s.world.receipts h.serving.keyed h.found now le x.lasts,
      x.for_it,
      x.is_completed,
      x.result,
    )

    -- A claim of the key is not Told to execute.
    abbrev IsOther : Invocation → List ReceiptRow × Claim → Type 0
    IsOther j (rows, execute) = same j.operation_key key_of ≡ false
    IsOther j (rows, _) = Unit

    claim-IsOther :
        (s : Server) (j : Invocation) (now : ℕ)
        → IsSettled s
        → now ≤ end
        → Yields (IsOther j) (claim j now s.world.receipts)
    unfolding claim read_receipt
    claim-IsOther s j now h le = go (lookup receipt_key j.operation_key kept) refl
      where
        kept : List ReceiptRow
        kept = prune_expired now s.world.receipts

        go_result :
            (o : Option StoredOutcome) → Yields (IsOther j) (unchanged kept (claim_result o))
        go_result none = tt
        go_result (some o) = tt

        go_status :
            (st : ReceiptStatus) (r : ReceiptRow)
            → Yields (IsOther j) (unchanged kept (claim_status st r))
        go_status pending r = tt
        go_status indeterminate r = tt
        go_status completed r = go_result r.result

        go :
            (m : Option ReceiptRow)
            → lookup receipt_key j.operation_key kept ≡ m
            → Yields (IsOther j) (claim_row j now kept m)
        go none q = ground (
          arith,
          q,
          prune-Stays key_of end row s.world.receipts h.serving.keyed h.found now le x.lasts,
        )
        go (some r) q = if_either (Yields (IsOther j)) (is_for j r) (go_status r.status r) tt

    pub begun-found :
        (s : Server) (j : Invocation) (now : ℕ) (durable : Bool)
        → IsSettled s
        → now ≤ end
        → let next = (started j s (start_durable j now durable s.world)).0 in
          Has next.world × (lookup call_key key_of next.in_flight ≡ none)
    unfolding start_durable find
    begun-found s j now durable h le =
        go durable (claim j now s.world.receipts)
          (claim-Stays key_of end row s.world.receipts h.serving.keyed h.found now le x.lasts j)
          (claim-IsOther s j now h le)
      where
        go :
            (d : Bool) (m : Result (List ReceiptRow × Claim))
            → Yields (λ p. lookup receipt_key key_of p.0 ≡ some row) m
            → Yields (IsOther j) m
            → let next =
                (started j s (claimed j (filed d m s.world) (commit d s.world.receipts m))).0 in
              Has next.world × (lookup call_key key_of next.in_flight ≡ none)
        go d (err receipt_conflict) y z = ((h.found, h.found_in_file), h.absent)
        go d (err _) y z = ((h.found, h.found_in_file), h.absent)
        go false (ok (rows, c)) y z = ((y, h.found_in_file), h.absent)
        go true (ok (rows, execute)) y z = ((y, y), ground (arith, z, h.absent))
        go true (ok (rows, claim_pending t)) y z = ((y, y), h.absent)
        go true (ok (rows, claim_completed o)) y z = ((y, y), h.absent)
        go true (ok (rows, claim_indeterminate t)) y z = ((y, y), h.absent)

    pub ended_found :
        (j : Invocation) (c : Circumstances) (o : StoredOutcome) (w : World)
        → Has w
        → Has (record_outcome j c o w).0
    unfolding record_outcome outcome_unknown
    ended_found j c o w f =
        if_either (λ (r : World × Answer). Has r.0) (is_internal o) (marked w f)
          (go (filed c.complete_durable m w) (commit c.complete_durable w.receipts m) (
            commit-found w c.complete_durable m f (
              complete-Stays key_of row w.receipts f.0 j (not_owned j) o c.complete_time
                (expiry c))))
      where
        m : Result (List ReceiptRow × Unit {0})
        m = complete j o c.complete_time (expiry c) w.receipts

        marked : (w : World) → Has w → Has (outcome_unknown j c w).0
        marked w f =
            commit-found w c.mark_durable (mark_indeterminate j c.mark_time w.receipts) f
              (mark_indeterminate-Stays key_of row w.receipts f.0 j (not_owned j) c.mark_time)

        go :
            (v : World) (p : List ReceiptRow × Tried (Unit {0}))
            → Has (with_receipts p.0 v)
            → Has (completed_with j c o v p).0
        go v (rows, done _) g = g
        go v (rows, refused e) g = marked (with_receipts rows v) g
        go v (rows, unwritten) g = marked (with_receipts rows v) g
