-- ===== src/Queue/Repository/History/Spent.antt =====
-- The claims of an item and the user's retries, for each method of the repository.
use codex_everywhere.Prelude.{
  ℕ, ◌+◌, ◌≤◌, ◌≡◌, refl, Bool, true, false, ◌&&◌, ◌||◌, String, Option, none, some, same, ◌==◌,
  Bool-cases, inl, inr, subst, text_discrete, if◌then◌else◌, arith,
}
use codex_everywhere.Table.{at, update, lookup, modified}
use codex_everywhere.Table.Laws.{lookup-update, lookup-delete, lookup-append, at-lookup}
use codex_everywhere.Queue.Rows.{
  RecordStatus, pending, paused, Disposition, retry, dismiss, Database, DeliveryIdentity, ok,
  ItemRow, ClaimRow, Outcome, read_claim, QueueRecord, ClaimedDelivery, item_id, is_status,
}
use codex_everywhere.Queue.Items.{
  NewItem, add, remove, transition_without_claim, new_row, removable, touch, unclaimed,
}
use codex_everywhere.Queue.Claims.{ClaimInput, claim}
use codex_everywhere.Queue.Outcomes.{
  complete, mark_indeterminate, recover_delivering, acknowledge_indeterminate, finish,
  is_delivering, open_claim, settle, is_outcome, mark_read,
}
use codex_everywhere.Queue.Repository.Consistent.{IsConsistent}
use codex_everywhere.Queue.Repository.Steps.{claim_item, claim_else}
use codex_everywhere.Queue.Repository.Settle.{finish_tables, doubted}
use codex_everywhere.Queue.Repository.Recover.{acknowledged}
use codex_everywhere.Queue.Repository.History.{acknowledges, retries_item}

-- Whether the delivery of an item has been claimed since the user last asked for one.
abbrev pub spent : Option ItemRow → ℕ
spent none = 0
spent (some r) = if is_status r.status pending || is_status r.status paused then 0 else 1

abbrev pub spent_at : String → Database → ℕ
spent_at k db = spent (lookup item_id k db.items)

module _ (k : String) (db : Database) (h : IsConsistent db) where
  pub add-spent :
      (input : NewItem) (next : Database) (r : QueueRecord)
      → add input db ≡ ok (next, r)
      → spent_at k db ≤ spent_at k next
  unfolding add
  add-spent input next r e = ground (arith, lookup-append item_id k db.items (new_row input))

  pub remove-spent :
      (id : String) (next : Database) (b : Bool)
      → remove id db ≡ ok (next, b)
      → spent_at k db ≤ spent_at k next
  unfolding remove
  remove-spent id next b e =
      ground (arith, h.items_keyed k, lookup-delete item_id k (removable id db) db.items)

  pub transition-spent :
      (id : String) (from to : RecordStatus) (now : ℕ) (next : Database) (r : QueueRecord)
      → (is_status from pending || is_status from paused) ≡ true
      → transition_without_claim id from to now db ≡ ok (next, r)
      → spent_at k db ≤ spent_at k next
  unfolding transition_without_claim
  transition-spent id from to now next r f e =
      ground (arith, lookup-update item_id selected (touch to now) (λ r. refl) k db.items)
    where
      selected : ItemRow → Bool
      selected r = at item_id id r && (is_status r.status from && unclaimed id db)

  pub claim-spent :
      (input : ClaimInput) (next : Database) (c : ClaimedDelivery)
      → claim input db ≡ ok (next, c)
      → spent_at k db + (if same input.item_id k then 1 else 0) ≤ spent_at k next
  claim-spent input next c e = elim (text_discrete input.item_id k) [
    | yes p ↦
        subst (λ j. spent_at j db + (if same input.item_id j then 1 else 0) ≤ spent_at j next) p
          (ground (arith, claim_item input db next c h e))
    | no n ↦ ground (arith, claim_else input db next c k h e n)
  ]

  pub finish-spent :
      (id : String) (status : RecordStatus) (now : ℕ) (other next : Database) (r : QueueRecord)
      → other.items ≡ db.items
      → (is_status status pending || is_status status paused) ≡ false
      → finish id status now other ≡ ok (next, r)
      → spent_at k db ≤ spent_at k next
  finish-spent id status now other next r same_items f e = ground (
    arith,
    finish_tables id status now other next r e,
    lookup-update item_id (at item_id id) (touch status now) (λ r. refl) k db.items,
  )

  pub complete-spent :
      (identity : DeliveryIdentity) (turn_id : String) (now : ℕ) (next : Database) (r : QueueRecord)
      → complete identity turn_id now db ≡ ok (next, r)
      → spent_at k db ≤ spent_at k next
  unfolding complete
  complete-spent identity turn_id now next r e =
      elim (Bool-cases (modified (open_claim identity) db.claims == 1)) [
        | inl one ↦
            finish-spent identity.queue_item_id RecordStatus.completed now
              (record db {
                claims =
                    update (open_claim identity) (settle Outcome.completed (some turn_id) now)
                      db.claims;
              })
              next r refl refl (ground arith)
        | inr other ↦ let e' : db ≡ next = ground arith in rw e' (omega arith)
      ]

  pub doubt-spent :
      (identity : DeliveryIdentity) (now : ℕ) (next : Database) (r : QueueRecord)
      → mark_indeterminate identity now db ≡ ok (next, r)
      → spent_at k db ≤ spent_at k next
  unfolding mark_indeterminate doubted
  doubt-spent identity now next r e =
      go (read_claim (doubted identity db h now) identity.queue_item_id) e
    where
      go :
          (m : Option ClaimRow)
          → mark_read identity now (doubted identity db h now) m ≡ ok (next, r)
          → spent_at k db ≤ spent_at k next
      go none q = cc
      go (some c) q = elim (Bool-cases (is_outcome c.outcome Outcome.completed)) [
        | inl done ↦
            let same_items : next.items ≡ db.items = ground arith in rw same_items (omega arith)
        | inr other ↦
            finish-spent identity.queue_item_id RecordStatus.indeterminate now
              (doubted identity db h now) next r refl refl (ground arith)
      ]

  pub recover-spent :
      (now : ℕ) (next : Database) (n : ℕ)
      → recover_delivering now db ≡ ok (next, n)
      → spent_at k db ≤ spent_at k next
  unfolding recover_delivering
  recover-spent now next n e = ground (
    arith,
    lookup-update item_id is_delivering (touch RecordStatus.indeterminate now) (λ r. refl) k
        db.items,
  )

  pub acknowledge-spent :
      (id : String) (d : Disposition) (now : ℕ) (next : Database) (r : QueueRecord)
      → acknowledge_indeterminate id d now db ≡ ok (next, r)
      → spent_at k db ≤ spent_at k next + retries_item k (true, acknowledges id d now)
  unfolding retries_item
  acknowledge-spent id retry now next r e =
      let (doubted, one, items, rest) = acknowledged now db h id retry next r e in
      rw items (
        ground (
          arith,
          lookup-update item_id (at item_id id) (touch pending now) (λ r. refl) k db.items,
          at-lookup item_id k db.items,
        ))
  acknowledge-spent id dismiss now next r e =
      let (doubted, one, items, rest) = acknowledged now db h id dismiss next r e in
      rw items (
        ground (
          arith,
          lookup-update item_id (at item_id id) (touch RecordStatus.completed now) (λ r. refl) k
              db.items,
        ))
