-- ===== src/Mutation/Receipts.antt =====
-- `MutationReceiptRepository` of apps/agent/src/v2/repositories/mutation-receipt-repository.ts: the
-- durable claim and result of each operation key. A stored outcome stands for its JSON text.
pub mod Laws
pub mod Settled
use codex_everywhere.Prelude.{
  ℕ, ◌+◌, Bool, true, false, ◌&&◌, ◌||◌, not, List, [], ◌∷◌, ◌++◌, Option, none, some, String, same,
  ltb, leb, ◌==◌, if◌then◌else◌,
}
use codex_everywhere.Table.{find, update, delete, modified, at, lookup}

pub data ReceiptStatus : Type 0 where
  pending completed indeterminate : ReceiptStatus

pub record ErrorPayload : Type 0 where
  pub code : String
  pub message : String
  pub retryable : Option Bool
  pub details : Option String

-- A JSON value is its text.
pub data StoredOutcome : Type 0 where
  success : String → StoredOutcome
  failure : ErrorPayload → StoredOutcome

pub record ReceiptRow : Type 0 where
  pub operation_key : String
  pub method : String
  pub request_fingerprint : Option String
  pub status : ReceiptStatus
  pub result : Option StoredOutcome
  pub created_at : ℕ
  pub updated_at : ℕ
  pub expires_at : Option ℕ

pub data Claim : Type 0 where
  execute : Claim
  claim_pending : ℕ → Claim
  claim_completed : StoredOutcome → Claim
  claim_indeterminate : ℕ → Claim

pub data ReceiptError : Type 0 where
  receipt_conflict no_result receipt_changed not_unique : ReceiptError

pub data Result {ℓ} (A : Type ℓ) : Type ℓ where
  ok : A → Result A
  err : ReceiptError → Result A

abbrev pub receipt_key : ReceiptRow → String
receipt_key r = r.operation_key

abbrev pub is_status : ReceiptStatus → ReceiptStatus → Bool
is_status pending pending = true
is_status completed completed = true
is_status indeterminate indeterminate = true
is_status _ _ = false

abbrev pub same_fingerprint : Option String → String → Bool
same_fingerprint none f = false
same_fingerprint (some g) f = same g f

abbrev pub past : Option ℕ → ℕ → Bool
past none now = false
past (some t) now = leb t now

-- status = 'completed' AND expires_at IS NOT NULL AND expires_at <= now.
abbrev pub is_expired : ℕ → ReceiptRow → Bool
is_expired now r = is_status r.status completed && past r.expires_at now

unfoldable pub prune_expired : ℕ → List ReceiptRow → List ReceiptRow
prune_expired now rows = delete (is_expired now) rows

unfoldable pub read_receipt : String → List ReceiptRow → Option ReceiptRow
read_receipt key rows = lookup receipt_key key rows

pub record Invocation : Type 0 where
  pub operation_key : String
  pub method : String
  pub request_fingerprint : String

abbrev pub is_for : Invocation → ReceiptRow → Bool
is_for i r = same r.method i.method && same_fingerprint r.request_fingerprint i.request_fingerprint

abbrev pub claim_result : Option StoredOutcome → Result Claim
claim_result none = err no_result
claim_result (some outcome) = ok (claim_completed outcome)

abbrev pub claim_status : ReceiptStatus → ReceiptRow → Result Claim
claim_status pending r = ok (claim_pending r.created_at)
claim_status indeterminate r = ok (claim_indeterminate r.updated_at)
claim_status completed r = claim_result r.result

abbrev pub pending_row : Invocation → ℕ → ReceiptRow
pending_row i now = record {
  operation_key = i.operation_key;
  method = i.method;
  request_fingerprint = some i.request_fingerprint;
  status = pending;
  result = none;
  created_at = now;
  updated_at = now;
  expires_at = none;
}

abbrev pub unchanged : List ReceiptRow → Result Claim → Result (List ReceiptRow × Claim)
unchanged rows (ok c) = ok (rows, c)
unchanged rows (err e) = err e

abbrev pub claim_row :
    Invocation → ℕ → List ReceiptRow → Option ReceiptRow → Result (List ReceiptRow × Claim)
claim_row i now rows none = ok (rows ++ pending_row i now ∷ [], execute)
claim_row i now rows (some r) =
    if is_for i r then unchanged rows (claim_status r.status r) else err receipt_conflict

-- `claim`: the first caller of a key executes; a later one is Told what became of it.
unfoldable pub claim : Invocation → ℕ → List ReceiptRow → Result (List ReceiptRow × Claim)
unfolding prune_expired read_receipt
claim i now rows =
    let kept = prune_expired now rows in claim_row i now kept (read_receipt i.operation_key kept)

abbrev pub owns : Invocation → ReceiptRow → Bool
owns i r = at receipt_key i.operation_key r && (is_for i r && is_status r.status pending)

abbrev pub complete_row : StoredOutcome → ℕ → ℕ → ReceiptRow → ReceiptRow
complete_row outcome now expires r = record r {
  status = completed;
  result = some outcome;
  updated_at = now;
  expires_at = some expires;
}

unfoldable pub complete :
    Invocation → StoredOutcome → ℕ → ℕ → List ReceiptRow → Result (List ReceiptRow × Unit {0})
complete i outcome now expires rows =
    if modified (owns i) rows == 1
    then ok (update (owns i) (complete_row outcome now expires) rows, tt)
    else err receipt_changed

abbrev pub doubt_row : ℕ → ReceiptRow → ReceiptRow
doubt_row now r = record r {
  status = indeterminate;
  result = none;
  updated_at = now;
  expires_at = none;
}

unfoldable pub mark_indeterminate :
    Invocation → ℕ → List ReceiptRow → Result (List ReceiptRow × Unit {0})
mark_indeterminate i now rows =
    if ltb 1 (modified (owns i) rows)
    then err not_unique
    else ok (update (owns i) (doubt_row now) rows, tt)

abbrev pub is_pending : ReceiptRow → Bool
is_pending r = is_status r.status pending

abbrev pub recover_row : ℕ → ReceiptRow → ReceiptRow
recover_row now r = record r { status = indeterminate; updated_at = now; expires_at = none }

-- `recoverPending`, before any new traffic is accepted.
unfoldable pub recover_pending : ℕ → List ReceiptRow → Result (List ReceiptRow × ℕ)
recover_pending now rows = ok (update is_pending (recover_row now) rows, modified is_pending rows)

pub data MutationStatus : Type 0 where
  missing : MutationStatus
  status_pending : String → ℕ → MutationStatus
  status_indeterminate : String → ℕ → MutationStatus
  status_completed : String → ℕ → StoredOutcome → MutationStatus

abbrev pub status_result : ReceiptRow → Option StoredOutcome → Result MutationStatus
status_result r none = err no_result
status_result r (some outcome) = ok (status_completed r.method r.updated_at outcome)

abbrev pub status_of : ReceiptStatus → ReceiptRow → Result MutationStatus
status_of pending r = ok (status_pending r.method r.created_at)
status_of indeterminate r = ok (status_indeterminate r.method r.updated_at)
status_of completed r = status_result r r.result

abbrev pub status_row : Option ReceiptRow → Result MutationStatus
status_row none = ok missing
status_row (some r) = status_of r.status r

abbrev pub with_rows :
    List ReceiptRow → Result MutationStatus → Result (List ReceiptRow × MutationStatus)
with_rows rows (ok s) = ok (rows, s)
with_rows rows (err e) = err e

unfoldable pub status : String → ℕ → List ReceiptRow → Result (List ReceiptRow × MutationStatus)
unfolding prune_expired read_receipt
status key now rows =
    let kept = prune_expired now rows in with_rows kept (status_row (read_receipt key kept))
