-- ===== src/Queue/Repository/Recover.antt =====
-- The restart and the user's acknowledgment against the invariant of the Queue tables.
use codex_everywhere.Prelude.{
  ℕ, ◌≡◌, ◌≢◌, refl, true, false, ◌&&◌, not, ◌∙◌, List, Option, none, some, String, arith,
}
use codex_everywhere.Table.{at, lookup, update, modified, exists}
use codex_everywhere.Table.Laws.{
  IsKeyed, set_row, holds, lookup-update, modified-update, modified-delete-le, lookup-delete,
  drop_row, exists-at, at-lookup,
}
use codex_everywhere.Queue.Rows.{
  RecordStatus, Outcome, ClaimRow, Database, QueueRecord, ok, item_id, claim_id, outcome_of,
  read_claim, read_queue, Disposition, retry, dismiss,
}
use codex_everywhere.Queue.Items.{touch}
use codex_everywhere.Queue.Outcomes.{
  doubt, is_delivering, stranded, recover_delivering, acknowledge_indeterminate, abandon, disposed,
  disposed_status, is_outcome, is_open,
}
use codex_everywhere.Queue.Repository.Consistent.{
  fits, claim_state, agrees_at, IsConsistent, restated, restated-IsConsistent,
}

module _ (now : ℕ) (db : Database) (h : IsConsistent db) where
  recovered_claim :
      (k : String)
      → lookup claim_id k (update (stranded db) (doubt now) db.claims)
        ≡ set_row
            (λ c. is_open c.outcome && exists (λ r. at item_id k r && is_delivering r) db.items)
            (doubt now)
            (lookup claim_id k db.claims)
  recovered_claim k =
      lookup-update claim_id (stranded db) (doubt now) (λ c. refl) k db.claims
      ∙ same_key (lookup claim_id k db.claims) (at-lookup claim_id k db.claims)
    where
      same_key :
          (m : Option ClaimRow)
          → holds (λ r. not (at claim_id k r)) m ≡ false
          → set_row (stranded db) (doubt now) m
            ≡ set_row
                (λ c. is_open c.outcome && exists (λ r. at item_id k r && is_delivering r) db.items)
                (doubt now)
                m
      same_key none e = refl
      same_key (some c) e = let e' : c.queue_item_id ≡ k = ground arith in rw (← e')

  recover_agree :
      (k : String) (next : Database) (n : ℕ)
      → recover_delivering now db ≡ ok (next, n)
      → agrees_at next k ≡ true
  unfolding recover_delivering
  recover_agree k next n e = ground (
    arith,
    h.agree k,
    h.items_keyed k,
    exists-at item_id k is_delivering db.items,
    lookup-update item_id is_delivering (touch RecordStatus.indeterminate now) (λ r. refl) k
        db.items,
    recovered_claim k,
  )

  pub recover-IsConsistent :
      (next : Database) (n : ℕ) → recover_delivering now db ≡ ok (next, n) → IsConsistent next
  unfolding recover_delivering
  recover-IsConsistent next n e = record {
    items_keyed = λ k. ground (
      arith,
      h.items_keyed k,
      modified-update item_id is_delivering (touch RecordStatus.indeterminate now) (λ r. refl) k
          db.items,
    );
    claims_keyed = λ k. ground (
      arith,
      h.claims_keyed k,
      modified-update claim_id (stranded db) (doubt now) (λ c. refl) k db.claims,
    );
    agree = λ k. recover_agree k next n e;
  }

  module _ (id : String) where
    abbrev pub disposed_claims : Disposition → List ClaimRow
    disposed_claims d = (disposed d id now db).claims

    disposed-IsKeyed : (d : Disposition) → IsKeyed claim_id (disposed_claims d)
    disposed-IsKeyed retry k =
        ground (arith, h.claims_keyed k, modified-delete-le claim_id k (at claim_id id) db.claims)
    disposed-IsKeyed dismiss k = ground (
      arith,
      h.claims_keyed k,
      modified-update claim_id (λ c. at claim_id id c && is_outcome c.outcome Outcome.indeterminate)
          (abandon now) (λ c. refl) k db.claims,
    )

    disposed_row : (d : Disposition) (k : String) → Option ClaimRow
    disposed_row retry k = drop_row (at claim_id id) (lookup claim_id k db.claims)
    disposed_row dismiss k =
        set_row (λ c. at claim_id id c && is_outcome c.outcome Outcome.indeterminate) (abandon now)
          (lookup claim_id k db.claims)

    disposed-row :
        (d : Disposition) (k : String) → lookup claim_id k (disposed_claims d) ≡ disposed_row d k
    unfolding disposed_row
    disposed-row retry k = lookup-delete claim_id k (at claim_id id) db.claims (h.claims_keyed k)
    disposed-row dismiss k =
        lookup-update claim_id (λ c. at claim_id id c && is_outcome c.outcome Outcome.indeterminate)
          (abandon now) (λ c. refl) k db.claims

    disposed_else :
        (d : Disposition) (k : String)
        → id ≢ k
        → lookup claim_id k (disposed_claims d) ≡ lookup claim_id k db.claims
    unfolding disposed_row
    disposed_else d k n = ground (arith, disposed-row d k, at-lookup claim_id k db.claims)

    disposed_fits :
        (d : Disposition)
        → is_outcome (outcome_of (lookup claim_id id db.claims)) Outcome.indeterminate ≡ true
        → fits (disposed_status d) (claim_state (lookup claim_id id (disposed_claims d))) ≡ true
    unfolding disposed_row
    disposed_fits d e = ground (arith, disposed-row d id, at-lookup claim_id id db.claims)

    -- An acknowledgment is accepted for an item whose claim has an unknown outcome.
    pub acknowledged :
        (d : Disposition) (next : Database) (r : QueueRecord)
        → acknowledge_indeterminate id d now db ≡ ok (next, r)
        → (is_outcome (outcome_of (lookup claim_id id db.claims)) Outcome.indeterminate ≡ true)
          × (modified (at item_id id) db.items ≡ 1)
          × (next.items ≡ (restated id (disposed_status d) now db (disposed_claims d) h).items)
          × (next.claims ≡ disposed_claims d)
    unfolding acknowledge_indeterminate read_queue read_claim
    acknowledged retry next r e = ground (arith, h.agree id)
    acknowledged dismiss next r e = ground (arith, h.agree id)

    pub acknowledge-IsConsistent :
        (d : Disposition) (next : Database) (r : QueueRecord)
        → acknowledge_indeterminate id d now db ≡ ok (next, r)
        → IsConsistent next
    acknowledge-IsConsistent d next r e =
        let (doubted, one, items, claims) = acknowledged d next r e in
        let v =
          restated-IsConsistent id (disposed_status d) now db (disposed_claims d) h one
            (disposed-IsKeyed d) (disposed_else d) (disposed_fits d doubted) in
        record {
          items_keyed = rw items v.items_keyed;
          claims_keyed = rw claims v.claims_keyed;
          agree = rw (items, claims) v.agree;
        }
