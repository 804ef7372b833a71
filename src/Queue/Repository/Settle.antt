-- ===== src/Queue/Repository/Settle.antt =====
-- The methods that settle a delivery against the invariant of the Queue tables.
use codex_everywhere.Prelude.{
  ℕ, ◌≡◌, ◌≢◌, refl, true, ◌&&◌, List, Option, none, some, String, ◌==◌, Bool-cases, inl, inr,
  arith,
}
use codex_everywhere.Table.{at, lookup, update, modified}
use codex_everywhere.Table.Laws.{
  IsKeyed, set_row, lookup-update, modified-update, modified-at, at-lookup,
}
use codex_everywhere.Queue.Rows.{
  RecordStatus, Outcome, ClaimRow, Database, QueueRecord, ok, item_id, claim_id, claim_matches,
  outcome_of, read_claim, DeliveryIdentity,
}
use codex_everywhere.Queue.Items.{touch}
use codex_everywhere.Queue.Outcomes.{
  finish, open_claim, settle, doubt, update_queue_status, complete, mark_indeterminate, is_outcome,
  is_open, mark_read,
}
use codex_everywhere.Queue.Repository.Consistent.{
  fits, claim_state, IsConsistent, agree_all, restated-IsConsistent,
}

-- The status update of a settled delivery.
pub finish_tables :
    (id : String) (status : RecordStatus) (now : ℕ) (db next : Database) (r : QueueRecord)
    → finish id status now db ≡ ok (next, r)
    → (next ≡ record db { items = update (at item_id id) (touch status now) db.items })
      × (modified (at item_id id) db.items ≡ 1)
unfolding update_queue_status
finish_tables id status now db next r e = ground arith

module _ (identity : DeliveryIdentity) (db : Database) (h : IsConsistent db) where
  abbrev id : String
  id = identity.queue_item_id

  -- Only the claim of the identity's item is settled.
  module _ (f : ClaimRow → ClaimRow) (keeps : (c : ClaimRow) → claim_id (f c) ≡ claim_id c) where
    abbrev settled : List ClaimRow
    settled = update (open_claim identity) f db.claims

    settled_row :
        (k : String)
        → lookup claim_id k settled ≡ set_row (open_claim identity) f (lookup claim_id k db.claims)
    settled_row k = lookup-update claim_id (open_claim identity) f keeps k db.claims

    settled-IsKeyed : IsKeyed claim_id settled
    settled-IsKeyed k = ground (
      arith,
      h.claims_keyed k,
      modified-update claim_id (open_claim identity) f keeps k db.claims,
    )

    settled_else : (k : String) → id ≢ k → lookup claim_id k settled ≡ lookup claim_id k db.claims
    settled_else k n = ground (arith, settled_row k, at-lookup claim_id k db.claims)

  complete_claims :
      (turn_id : String) (now : ℕ)
      → modified (open_claim identity) db.claims ≡ 1
      → fits RecordStatus.completed (
          claim_state (
            lookup claim_id id (settled (settle Outcome.completed (some turn_id) now) (λ c. refl))))
        ≡ true
  complete_claims turn_id now one = ground (
    arith,
    h.claims_keyed id,
    at-lookup claim_id id db.claims,
    modified-at claim_id id (λ c. claim_matches c identity && is_open c.outcome) db.claims,
    settled_row (settle Outcome.completed (some turn_id) now) (λ c. refl) id,
  )

  -- The item gets its status beside the settled claims.
  finish-settled :
      (f : ClaimRow → ClaimRow) (keeps : (c : ClaimRow) → claim_id (f c) ≡ claim_id c)
      (status : RecordStatus) (now : ℕ) (next : Database) (r : QueueRecord)
      → fits status (claim_state (lookup claim_id id (settled f keeps))) ≡ true
      → finish id status now (record db { claims = settled f keeps }) ≡ ok (next, r)
      → IsConsistent next
  finish-settled f keeps status now next r fit e =
      let (eq_next, one) =
        finish_tables id status now (record db { claims = settled f keeps }) next r e in
      rw eq_next (
        restated-IsConsistent id status now db (settled f keeps) h one (settled-IsKeyed f keeps)
          (settled_else f keeps) fit)

  pub complete-IsConsistent :
      (turn_id : String) (now : ℕ) (next : Database) (r : QueueRecord)
      → complete identity turn_id now db ≡ ok (next, r)
      → IsConsistent next
  unfolding complete
  complete-IsConsistent turn_id now next r e =
      elim (Bool-cases (modified (open_claim identity) db.claims == 1)) [
        | inl one ↦
            finish-settled (settle Outcome.completed (some turn_id) now) (λ c. refl)
              RecordStatus.completed now next r (complete_claims turn_id now (ground arith))
              (ground arith)
        | inr other ↦ let e' : db ≡ next = ground arith in rw e' at h
      ]

  -- The claims after the UPDATE of `markIndeterminate` are consistent with a completed item.
  unfoldable pub doubted : ℕ → Database
  doubted now = record db { claims = settled (doubt now) (λ c. refl) }

  doubted_completed :
      (now : ℕ)
      → is_outcome
          (outcome_of (lookup claim_id id (settled (doubt now) (λ c. refl))))
          Outcome.completed
        ≡ true
      → IsConsistent (doubted now)
  unfolding doubted
  doubted_completed now e = record {
    items_keyed = h.items_keyed;
    claims_keyed = settled-IsKeyed (doubt now) (λ c. refl);
    agree =
        agree_all id db (doubted now) h (λ k n. refl) (settled_else (doubt now) (λ c. refl))
          (ground (arith, h.agree id, settled_row (doubt now) (λ c. refl) id));
  }

  pub mark_indeterminate-IsConsistent :
      (now : ℕ) (next : Database) (r : QueueRecord)
      → mark_indeterminate identity now db ≡ ok (next, r)
      → IsConsistent next
  unfolding mark_indeterminate read_claim doubted
  mark_indeterminate-IsConsistent now next r e = go (read_claim (doubted now) id) refl e
    where
      go :
          (m : Option ClaimRow)
          → read_claim (doubted now) id ≡ m
          → mark_read identity now (doubted now) m ≡ ok (next, r)
          → IsConsistent next
      go none q e = cc
      go (some c) q e = elim (Bool-cases (is_outcome c.outcome Outcome.completed)) [
        | inl done ↦
            let e' : doubted now ≡ next = ground arith in
            rw e' at (doubted_completed now (ground arith))
        | inr other ↦
            finish-settled (doubt now) (λ c. refl) RecordStatus.indeterminate now next r
              (ground arith) (ground arith)
      ]
