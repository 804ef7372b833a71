-- ===== src/Queue/Repository/Consistent.antt =====
-- The invariant of the Queue tables.
use codex_everywhere.Prelude.{
  ℕ, ◌≡◌, ◌≢◌, refl, Bool, true, false, ◌&&◌, List, Option, none, some, String, text_discrete, ◌==◌,
  arith,
}
use codex_everywhere.Table.{at, lookup, update, modified}
use codex_everywhere.Table.Laws.{
  IsKeyed, set_row, lookup-update, modified-update, modified-absent_key, at-lookup,
}
use codex_everywhere.Queue.Rows.{
  RecordStatus, pending, paused, delivering, Outcome, ItemRow, ClaimRow, Database, item_id,
  claim_id,
}
use codex_everywhere.Queue.Items.{touch}

-- Which claims may stand beside an item of a status. A pending or paused item has none, a delivering
-- item has one without an outcome, and a settled item has one with the outcome that settled it.
abbrev pub fits : RecordStatus → Option (Option Outcome) → Bool
fits pending none = true
fits paused none = true
fits delivering (some none) = true
fits RecordStatus.completed (some (some Outcome.completed)) = true
fits RecordStatus.completed (some (some Outcome.abandoned)) = true
fits RecordStatus.indeterminate (some (some Outcome.indeterminate)) = true
fits _ _ = false

abbrev pub claim_state : Option ClaimRow → Option (Option Outcome)
claim_state none = none
claim_state (some c) = some c.outcome

abbrev pub agrees : Option ItemRow → Option ClaimRow → Bool
agrees none none = true
agrees none (some c) = false
agrees (some r) claim = r.request.version == 1 && fits r.status (claim_state claim)

pub record IsConsistent (db : Database) : Type 0 where
  pub items_keyed : IsKeyed item_id db.items
  pub claims_keyed : IsKeyed claim_id db.claims
  pub agree : (k : String) → agrees (lookup item_id k db.items) (lookup claim_id k db.claims) ≡ true

abbrev pub agrees_at : Database → String → Bool
agrees_at db k = agrees (lookup item_id k db.items) (lookup claim_id k db.claims)

-- A change of the rows of one key is to be checked at that key.
pub agree_all :
    (j : String) (db next : Database)
    → IsConsistent db
    → ((k : String) → j ≢ k → lookup item_id k next.items ≡ lookup item_id k db.items)
    → ((k : String) → j ≢ k → lookup claim_id k next.claims ≡ lookup claim_id k db.claims)
    → agrees_at next j ≡ true
    → (k : String) → agrees_at next k ≡ true
agree_all j db next h items claims here k = elim (text_discrete j k) [
  | yes p ↦ rw p at here
  | no p ↦ rw (items k p, claims k p) (h.agree k)
]

-- An item that gets a new status, beside claims that differ at its key only.
module _ (j : String) (status : RecordStatus) (now : ℕ) (db : Database) (claims : List ClaimRow)
    (h : IsConsistent db) where
  abbrev pub restated : Database
  restated = record db {
    items = update (at item_id j) (touch status now) db.items;
    claims = claims;
  }

  restated_items :
      (k : String)
      → lookup item_id k restated.items
        ≡ set_row (at item_id j) (touch status now) (lookup item_id k db.items)
  restated_items k = lookup-update item_id (at item_id j) (touch status now) (λ r. refl) k db.items

  restated_here :
      modified (at item_id j) db.items ≡ 1
      → fits status (claim_state (lookup claim_id j claims)) ≡ true
      → agrees_at restated j ≡ true
  restated_here e f = ground (
    arith,
    h.agree j,
    restated_items j,
    at-lookup item_id j db.items,
    modified-absent_key item_id j db.items,
  )

  restated_else : (k : String) → j ≢ k → lookup item_id k restated.items ≡ lookup item_id k db.items
  restated_else k n = ground (arith, restated_items k, at-lookup item_id k db.items)

  pub restated-IsConsistent :
      modified (at item_id j) db.items ≡ 1
      → IsKeyed claim_id claims
      → ((k : String) → j ≢ k → lookup claim_id k claims ≡ lookup claim_id k db.claims)
      → fits status (claim_state (lookup claim_id j claims)) ≡ true
      → IsConsistent restated
  restated-IsConsistent e keyed others f = record {
    items_keyed = λ k. ground (
      arith,
      h.items_keyed k,
      modified-update item_id (at item_id j) (touch status now) (λ r. refl) k db.items,
    );
    claims_keyed = keyed;
    agree = agree_all j db restated h restated_else others (restated_here e f);
  }
