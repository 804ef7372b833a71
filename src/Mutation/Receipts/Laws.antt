-- ===== src/Mutation/Receipts/Laws.antt =====
-- What each transaction on the receipts does to the receipt of one key.
use codex_everywhere.Prelude.{
  ℕ, ◌+◌, ◌≤◌, ◌<◌, ◌≡◌, refl, Bool, not, List, [], ◌∷◌, ◌++◌, Option, none, some, String, same,
  ltb, ◌==◌, if◌then◌else◌, arith, if_either, text_discrete,
}
use codex_everywhere.Table.{update, lookup, modified}
use codex_everywhere.Table.Laws.{
  IsKeyed, holds, drop_row, lookup-delete, lookup-append, modified-append, modified-delete-le,
  lookup-update, modified-update, modified-absent_key,
}
use codex_everywhere.Mutation.Receipts.{
  ReceiptRow, ReceiptStatus, receipt_key, Claim, execute, StoredOutcome, ok, err, Result,
  Invocation, is_expired, prune_expired, read_receipt, is_for, claim_row, claim_status, pending,
  completed, indeterminate, unchanged, pending_row, claim, owns, complete_row, complete, doubt_row,
  mark_indeterminate, is_pending, recover_row, recover_pending, status, with_rows, status_row,
  MutationStatus, claim_result,
}

-- A receipt that no pruning up to a time removes.
abbrev pub lasts : ℕ → ReceiptRow → Bool
lasts end r = not (is_expired end r)

abbrev pub stands : String → ℕ → List ReceiptRow → ℕ
stands k end rows = if holds (lasts end) (lookup receipt_key k rows) then 1 else 0

-- What holds of a result that is not an error.
abbrev pub Yields {ℓ κ} : {A : Type ℓ} → (A → Type κ) → Result A → Type κ
Yields P (err e) = Unit
Yields P (ok a) = P a

abbrev pub executions : Invocation → Claim → String → ℕ
executions i execute k = if same i.operation_key k then 1 else 0
executions i _ k = 0

module _ (k : String) (end : ℕ) (rows : List ReceiptRow) (h : IsKeyed receipt_key rows) where
  pub prune-IsKeyed : (now : ℕ) → IsKeyed receipt_key (prune_expired now rows)
  unfolding prune_expired
  prune-IsKeyed now j = omega (arith, h j, modified-delete-le receipt_key j (is_expired now) rows)

  pub lookup-prune :
      (now : ℕ)
      → lookup receipt_key k (prune_expired now rows)
        ≡ drop_row (is_expired now) (lookup receipt_key k rows)
  unfolding prune_expired
  lookup-prune now = lookup-delete receipt_key k (is_expired now) rows (h k)

  pub prune-stands :
      (now : ℕ) → now ≤ end → stands k end (prune_expired now rows) ≡ stands k end rows
  prune-stands now le = ground (arith, lookup-prune now)

  -- The receipts after a step have distinct keys, and the receipt of k stands if it stood; what is
  -- executed under k stands as well.
  abbrev pub Kept : ℕ → List ReceiptRow → Type 0
  Kept n next = IsKeyed receipt_key next × (n + stands k end rows ≤ stands k end next)

  module _ (now : ℕ) (le : now ≤ end) where
    abbrev pub kept : List ReceiptRow
    kept = prune_expired now rows

    pruned-Kept : Kept 0 kept
    pruned-Kept = (prune-IsKeyed now, omega (arith, prune-stands now le))

    pub status-Kept : (key : String) → Yields (λ p. Kept 0 p.0) (status key now rows)
    unfolding status
    status-Kept key = go (status_row (read_receipt key kept))
      where
        go : (m : Result MutationStatus) → Yields (λ p. Kept 0 p.0) (with_rows kept m)
        go (err e) = tt
        go (ok s) = pruned-Kept

    module _ (i : Invocation) where
      inserted-Kept :
          lookup receipt_key i.operation_key kept ≡ none
          → Kept (executions i execute k) (kept ++ pending_row i now ∷ [])
      inserted-Kept q = elim (text_discrete i.operation_key k) [
        | yes p ↦ (
          keyed,
          ground (arith, prune-stands now le, lookup-append receipt_key k kept (pending_row i now)),
        )
        | no n ↦ (
          keyed,
          ground (arith, prune-stands now le, lookup-append receipt_key k kept (pending_row i now)),
        )
      ]
        where
          keyed : IsKeyed receipt_key (kept ++ pending_row i now ∷ [])
          keyed j = elim (text_discrete i.operation_key j) [
            | yes p ↦ ground (
              arith,
              modified-append receipt_key j kept (pending_row i now),
              modified-absent_key receipt_key i.operation_key kept q,
            )
            | no n ↦
                ground (
                  arith,
                  modified-append receipt_key j kept (pending_row i now),
                  prune-IsKeyed now j,
                )
          ]

      abbrev pub Told : Result (List ReceiptRow × Claim) → Type 0
      Told = Yields (λ p. Kept (executions i p.1 k) p.0)

      found-Kept : (r : ReceiptRow) → Told (claim_row i now kept (some r))
      found-Kept r = if_either Told (is_for i r) (go r.status) tt
        where
          go_result : (o : Option StoredOutcome) → Told (unchanged kept (claim_result o))
          go_result none = tt
          go_result (some o) = pruned-Kept

          go : (s : ReceiptStatus) → Told (unchanged kept (claim_status s r))
          go pending = pruned-Kept
          go indeterminate = pruned-Kept
          go completed = go_result r.result

      -- A claim: only a key without a receipt is executed, and then it has one.
      pub claim-Kept : Told (claim i now rows)
      unfolding claim read_receipt
      claim-Kept = go (lookup receipt_key i.operation_key kept) refl
        where
          go :
              (m : Option ReceiptRow)
              → lookup receipt_key i.operation_key kept ≡ m
              → Told (claim_row i now kept m)
          go none q = inserted-Kept q
          go (some r) q = found-Kept r

  -- A change of rows under their keys.
  updated-IsKeyed :
      (p : ReceiptRow → Bool) (f : ReceiptRow → ReceiptRow)
      → ((r : ReceiptRow) → receipt_key (f r) ≡ receipt_key r)
      → IsKeyed receipt_key (update p f rows)
  updated-IsKeyed p f keeps j = omega (arith, h j, modified-update receipt_key p f keeps j rows)

  pub complete-Kept :
      (i : Invocation) (outcome : StoredOutcome) (now expires : ℕ)
      → end < expires
      → Yields (λ p. Kept 0 p.0) (complete i outcome now expires rows)
  unfolding complete
  complete-Kept i outcome now expires lt =
      if_either (Yields (λ p. Kept 0 p.0)) (modified (owns i) rows == 1)
        (
          updated-IsKeyed (owns i) (complete_row outcome now expires) (λ r. refl),
          ground (
            arith,
            lookup-update receipt_key (owns i) (complete_row outcome now expires) (λ r. refl) k
                rows,
          ),
        )
        tt

  pub mark_indeterminate-Kept :
      (i : Invocation) (now : ℕ) → Yields (λ p. Kept 0 p.0) (mark_indeterminate i now rows)
  unfolding mark_indeterminate
  mark_indeterminate-Kept i now =
      if_either (Yields (λ p. Kept 0 p.0)) (ltb 1 (modified (owns i) rows)) tt (
        updated-IsKeyed (owns i) (doubt_row now) (λ r. refl),
        ground (arith, lookup-update receipt_key (owns i) (doubt_row now) (λ r. refl) k rows),
      )

  pub recover_pending-Kept : (now : ℕ) → Yields (λ p. Kept 0 p.0) (recover_pending now rows)
  unfolding recover_pending
  recover_pending-Kept now = (
    updated-IsKeyed is_pending (recover_row now) (λ r. refl),
    ground (arith, lookup-update receipt_key is_pending (recover_row now) (λ r. refl) k rows),
  )
