-- ===== src/Mutation/Durable.antt =====
-- The durable path of `AgentMutationMiddleware` in apps/agent/src/v2/services/mutation-middleware.ts.
-- What the handler does, the times, and which transactions could be written are arguments; the
-- handlers that were run are a log, newest first. The fingerprint is SHA-256 of the canonical JSON of
-- the method and its input, computed before this code runs.
use codex_everywhere.Prelude.{
  ℕ, ◌+◌, ◌*◌, Bool, false, List, ◌∷◌, none, String, same, if◌then◌else◌,
}
use codex_everywhere.Mutation.Receipts.{
  ErrorPayload, StoredOutcome, success, failure, ReceiptRow, Claim, execute, claim_pending,
  claim_completed, claim_indeterminate, ReceiptError, receipt_conflict, Result, ok, err, Invocation,
  claim, complete, mark_indeterminate,
}

-- 24 hours.
abbrev pub durable_result_ttl_ms : ℕ
durable_result_ttl_ms = 24 * 60 * 60000

-- How the handler ends: with a JSON value, with a GatewayV2Error, or with anything else.
pub data Executed : Type 0 where
  succeeded : String → Executed
  gateway_error : ErrorPayload → Executed
  other_error : Executed

pub data GatewayError : Type 0 where
  rethrown : ErrorPayload → GatewayError
  operation_key_reused mutation_pending mutation_outcome_unknown internal_error : GatewayError

pub data Answer : Type 0 where
  resolved : String → Answer
  rejected : GatewayError → Answer

-- `receipts` are the rows of the open database, and `file` the rows of its file, which a restart reads.
pub record World : Type 0 where
  pub receipts : List ReceiptRow
  pub file : List ReceiptRow
  pub executed : List String

abbrev pub internal_payload : ErrorPayload
internal_payload = record {
  code = "INTERNAL_ERROR";
  message = "Gateway mutation could not be completed";
  retryable = none;
  details = none;
}

-- `captureOutcome` is total.
unfoldable pub capture_outcome : Executed → StoredOutcome
capture_outcome (succeeded v) = success v
capture_outcome (gateway_error e) = failure e
capture_outcome other_error = failure internal_payload

unfoldable pub unwrap_outcome : StoredOutcome → Answer
unwrap_outcome (success v) = resolved v
unwrap_outcome (failure e) = rejected (rethrown e)

abbrev pub is_internal : StoredOutcome → Bool
is_internal (success v) = false
is_internal (failure e) = same e.code "INTERNAL_ERROR"

-- `SqliteStateFile.transaction`, as the Queue's: a body that throws changes nothing, and a file that
-- could not be written is an error after the change.
pub data Tried {ℓ} (A : Type ℓ) : Type ℓ where
  done : A → Tried A
  refused : ReceiptError → Tried A
  unwritten : Tried A

abbrev pub commit {ℓ} :
    {A : Type ℓ} → Bool → List ReceiptRow → Result (List ReceiptRow × A) → List ReceiptRow × Tried A
commit durable rows (err e) = (rows, refused e)
commit durable rows (ok (next, a)) = (next, if durable then done a else unwritten)

-- What the file holds after a transaction.
abbrev pub stored {ℓ} :
    {A : Type ℓ} → Bool → Result (List ReceiptRow × A) → List ReceiptRow → List ReceiptRow
stored durable (err e) file = file
stored durable (ok (next, a)) file = if durable then next else file

abbrev pub filed {ℓ} : {A : Type ℓ} → Bool → Result (List ReceiptRow × A) → World → World
filed durable m w = record w { file = stored durable m w.file }

pub record Circumstances : Type 0 where
  pub claim_time : ℕ
  pub claim_durable : Bool
  pub execution : Executed
  pub complete_time : ℕ
  pub complete_durable : Bool
  pub mark_time : ℕ
  pub mark_durable : Bool

abbrev pub with_receipts : List ReceiptRow → World → World
with_receipts rows w = record w { receipts = rows }

-- A transaction whose answer is not used.
abbrev pub transact {ℓ} : {A : Type ℓ} → Bool → Result (List ReceiptRow × A) → World → World
transact durable m w = with_receipts (commit durable w.receipts m).0 (filed durable m w)

-- `bestEffortIndeterminate` swallows its errors; the outcome is unknown whichever way it ends.
unfoldable pub outcome_unknown : Invocation → Circumstances → World → World × Answer
outcome_unknown i c w = (
  transact c.mark_durable (mark_indeterminate i c.mark_time w.receipts) w,
  rejected mutation_outcome_unknown,
)

abbrev pub completed_with :
    Invocation
    → Circumstances
    → StoredOutcome
    → World
    → List ReceiptRow × Tried (Unit {0})
    → World × Answer
completed_with i c outcome w (rows, done _) = (with_receipts rows w, unwrap_outcome outcome)
completed_with i c outcome w (rows, refused e) = outcome_unknown i c (with_receipts rows w)
completed_with i c outcome w (rows, unwritten) = outcome_unknown i c (with_receipts rows w)

abbrev pub expiry : Circumstances → ℕ
expiry c = c.complete_time + durable_result_ttl_ms

-- The handler has run; its outcome is recorded, or is unknown.
unfoldable pub record_outcome : Invocation → Circumstances → StoredOutcome → World → World × Answer
unfolding outcome_unknown unwrap_outcome
record_outcome i c outcome w =
    if is_internal outcome
    then outcome_unknown i c w
    else let m = complete i outcome c.complete_time (expiry c) w.receipts in
      completed_with i c outcome (filed c.complete_durable m w)
        (commit c.complete_durable w.receipts m)

abbrev pub run_handler : Invocation → World → World
run_handler i w = record w { executed = i.operation_key ∷ w.executed }

-- How far `#executeDurable` comes before it awaits the handler.
pub data Started : Type 0 where
  executing : Started
  answers : Answer → Started

abbrev pub claimed : Invocation → World → List ReceiptRow × Tried Claim → World × Started
claimed i w (rows, refused receipt_conflict) =
    (with_receipts rows w, answers (rejected operation_key_reused))
claimed i w (rows, refused _) = (with_receipts rows w, answers (rejected internal_error))
claimed i w (rows, unwritten) = (with_receipts rows w, answers (rejected internal_error))
claimed i w (rows, done execute) = (run_handler i (with_receipts rows w), executing)
claimed i w (rows, done (claim_completed outcome)) =
    (with_receipts rows w, answers (unwrap_outcome outcome))
claimed i w (rows, done (claim_pending t)) =
    (with_receipts rows w, answers (rejected mutation_pending))
claimed i w (rows, done (claim_indeterminate t)) =
    (with_receipts rows w, answers (rejected mutation_outcome_unknown))

unfoldable pub start_durable : Invocation → ℕ → Bool → World → World × Started
unfolding unwrap_outcome
start_durable i now durable w =
    let m = claim i now w.receipts in claimed i (filed durable m w) (commit durable w.receipts m)

abbrev pub finished : Invocation → Circumstances → World × Started → World × Answer
finished i c (w, answers a) = (w, a)
finished i c (w, executing) = record_outcome i c (capture_outcome c.execution) w

-- `#executeDurable`.
unfoldable pub execute_durable : Invocation → Circumstances → World → World × Answer
unfolding start_durable record_outcome capture_outcome
execute_durable i c w = finished i c (start_durable i c.claim_time c.claim_durable w)
