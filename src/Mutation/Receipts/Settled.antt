-- ===== src/Mutation/Receipts/Settled.antt =====
-- Settled and owned receipts of apps/agent/src/v2/repositories/mutation-receipt-repository.ts under
-- other callers.
use codex_everywhere.Prelude.{
  ℕ, ◌≤◌, ◌≡◌, refl, false, List, [], ◌∷◌, ◌++◌, Option, none, some, String, ltb, ◌==◌, if_either,
  arith,
}
use codex_everywhere.Table.{lookup, modified}
use codex_everywhere.Table.Laws.{IsKeyed, lookup-append, lookup-update}
use codex_everywhere.Mutation.Receipts.{
  ReceiptRow, ReceiptStatus, receipt_key, Claim, StoredOutcome, ok, err, Result, Invocation,
  is_expired, prune_expired, read_receipt, is_for, claim_row, claim_status, claim_result, pending,
  completed, indeterminate, unchanged, pending_row, claim, owns, complete_row, complete, doubt_row,
  mark_indeterminate, status, with_rows, status_row, MutationStatus,
}
use codex_everywhere.Mutation.Receipts.Laws.{Yields, lookup-prune}

module _ (k : String) (end : ℕ) (r : ReceiptRow) (rows : List ReceiptRow)
    (h : IsKeyed receipt_key rows) (q : lookup receipt_key k rows ≡ some r) where
  abbrev pub Stays : List ReceiptRow → Type 0
  Stays next = lookup receipt_key k next ≡ some r

  module _ (now : ℕ) (le : now ≤ end) (l : is_expired end r ≡ false) where
    abbrev pub kept : List ReceiptRow
    kept = prune_expired now rows

    pub prune-Stays : Stays kept
    prune-Stays = ground (arith, lookup-prune k end rows h now)

    pub status-Stays : (key : String) → Yields (λ p. Stays p.0) (status key now rows)
    unfolding status
    status-Stays key = go (status_row (read_receipt key kept))
      where
        go : (m : Result MutationStatus) → Yields (λ p. Stays p.0) (with_rows kept m)
        go (err e) = tt
        go (ok s) = prune-Stays

    pub claim-Stays : (i : Invocation) → Yields (λ p. Stays p.0) (claim i now rows)
    unfolding claim read_receipt
    claim-Stays i = go (lookup receipt_key i.operation_key kept)
      where
        appended : Stays (kept ++ pending_row i now ∷ [])
        appended = ground (arith, lookup-append receipt_key k kept (pending_row i now), prune-Stays)

        go_result :
            (o : Option StoredOutcome) → Yields (λ p. Stays p.0) (unchanged kept (claim_result o))
        go_result none = tt
        go_result (some o) = prune-Stays

        go_status :
            (s : ReceiptStatus) (x : ReceiptRow)
            → Yields (λ p. Stays p.0) (unchanged kept (claim_status s x))
        go_status pending x = prune-Stays
        go_status indeterminate x = prune-Stays
        go_status completed x = go_result x.result

        go : (m : Option ReceiptRow) → Yields (λ p. Stays p.0) (claim_row i now kept m)
        go none = appended
        go (some x) =
            if_either (Yields (λ (p : List ReceiptRow × Claim). Stays p.0)) (is_for i x)
              (go_status x.status x) tt

-- What completes or marks receipts changes those that the invocation owns only.
module _ (k : String) (r : ReceiptRow) (rows : List ReceiptRow)
    (q : lookup receipt_key k rows ≡ some r) (i : Invocation) (n : owns i r ≡ false) where
  pub complete-Stays :
      (outcome : StoredOutcome) (now expires : ℕ)
      → Yields (λ p. lookup receipt_key k p.0 ≡ some r) (complete i outcome now expires rows)
  unfolding complete
  complete-Stays outcome now expires =
      if_either (Yields (λ p. lookup receipt_key k p.0 ≡ some r)) (modified (owns i) rows == 1)
        (ground (
          arith,
          lookup-update receipt_key (owns i) (complete_row outcome now expires) (λ r. refl) k rows,
        ))
        tt

  pub mark_indeterminate-Stays :
      (now : ℕ) → Yields (λ p. lookup receipt_key k p.0 ≡ some r) (mark_indeterminate i now rows)
  unfolding mark_indeterminate
  mark_indeterminate-Stays now =
      if_either (Yields (λ p. lookup receipt_key k p.0 ≡ some r)) (ltb 1 (modified (owns i) rows))
        tt (ground (arith, lookup-update receipt_key (owns i) (doubt_row now) (λ r. refl) k rows))
