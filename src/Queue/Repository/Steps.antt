-- ===== src/Queue/Repository/Steps.antt =====
-- Each method of the repository against the invariant of the Queue tables.
use codex_everywhere.Prelude.{
  ℕ, ◌≡◌, ◌≢◌, refl, ap, sym, ◌∙◌, Bool, true, false, ◌&&◌, ◌||◌, Option, none, some, String, ◌==◌,
  arith,
}
use codex_everywhere.Table.{at, lookup, modified, exists}
use codex_everywhere.Table.Laws.{
  set_row, holds, lookup-update, modified-update, modified-at, exists-lookup, lookup-append,
  modified-append, modified-delete-le, lookup-delete, at-lookup, modified-absent_key,
}
use codex_everywhere.Queue.Rows.{
  RecordStatus, pending, paused, ItemRow, Database, QueueRecord, Result, ok, err, ◌>>=◌, item_id,
  claim_id, read_queue, required_queue, is_status, DeliveryIdentity, ClaimedDelivery,
}
use codex_everywhere.Queue.Items.{
  touch, transition_without_claim, unclaimed, NewItem, new_row, add, removable, remove,
}
use codex_everywhere.Queue.Claims.{
  ClaimInput, claim, claimable, deliver_row, claim_row, claim_read, identity_of, claimed_tables,
  eligible,
}
use codex_everywhere.Queue.Outcomes.{is_delivering}
use codex_everywhere.Queue.Repository.Consistent.{fits, agrees, IsConsistent, agree_all}

pub add-IsConsistent :
    (input : NewItem) (db : Database) (next : Database) (r : QueueRecord)
    → IsConsistent db
    → add input db ≡ ok (next, r)
    → IsConsistent next
unfolding add
add-IsConsistent input db next r h e = record {
  items_keyed = λ k. ground (
    arith,
    h.items_keyed k,
    exists-lookup item_id input.id db.items,
    modified-absent_key item_id input.id db.items,
    modified-append item_id k db.items (new_row input),
  );
  claims_keyed = λ k. ground (arith, h.claims_keyed k);
  agree = λ k. ground (
    arith,
    h.agree k,
    exists-lookup item_id input.id db.items,
    lookup-append item_id k db.items (new_row input),
  );
}

pub remove-IsConsistent :
    (id : String) (db : Database) (next : Database) (removed : Bool)
    → IsConsistent db
    → remove id db ≡ ok (next, removed)
    → IsConsistent next
unfolding remove
remove-IsConsistent id db next removed h e = record {
  items_keyed =
      λ k. ground (arith, h.items_keyed k, modified-delete-le item_id k (removable id db) db.items);
  claims_keyed = λ k. ground (arith, h.claims_keyed k);
  agree = λ k. ground (
    arith,
    h.agree k,
    h.items_keyed k,
    exists-lookup claim_id id db.claims,
    lookup-delete item_id k (removable id db) db.items,
  );
}

pub transition-IsConsistent :
    (id : String) (from to : RecordStatus) (now : ℕ) (db next : Database) (r : QueueRecord)
    → IsConsistent db
    → fits from none ≡ true
    → fits to none ≡ true
    → transition_without_claim id from to now db ≡ ok (next, r)
    → IsConsistent next
unfolding transition_without_claim
transition-IsConsistent id from to now db next r h f g e = record {
  items_keyed = λ k. ground (
    arith,
    h.items_keyed k,
    modified-update item_id selected (touch to now) (λ r. refl) k db.items,
  );
  claims_keyed = λ k. ground (arith, h.claims_keyed k);
  agree = λ k. ground (
    arith,
    h.agree k,
    h.agree id,
    exists-lookup claim_id id db.claims,
    lookup-update item_id selected (touch to now) (λ r. refl) k db.items,
  );
}
  where
    selected : ItemRow → Bool
    selected r = at item_id id r && (is_status r.status from && unclaimed id db)

module _ (input : ClaimInput) (current : QueueRecord) (db : Database) (h : IsConsistent db)
    (i : current.id ≡ input.item_id) (one : modified (claimable input current) db.items ≡ 1)
    (new : exists (at claim_id current.id) db.claims ≡ false) where
  claimed_items :
      (k : String)
      → lookup item_id k (claimed_tables input current db).items
        ≡ set_row (claimable input current) (deliver_row input current) (lookup item_id k db.items)
  unfolding claimed_tables
  claimed_items k =
      lookup-update item_id (claimable input current) (deliver_row input current) (λ r. refl) k
        db.items

  claimed_here :
      agrees
        (lookup item_id input.item_id (claimed_tables input current db).items)
        (lookup claim_id input.item_id (claimed_tables input current db).claims)
      ≡ true
  unfolding claimed_tables
  claimed_here = ground (
    arith,
    h.items_keyed input.item_id,
    at-lookup item_id input.item_id db.items,
    exists-lookup claim_id current.id db.claims,
    modified-at item_id input.item_id
        (λ r. r.revision == input.expected_revision && is_status r.status current.status) db.items,
    claimed_items input.item_id,
    lookup-append claim_id input.item_id db.claims (claim_row input current),
  )

  claimed_delivering :
      holds is_delivering (lookup item_id input.item_id (claimed_tables input current db).items)
      ≡ true
  claimed_delivering = ground (
    arith,
    h.items_keyed input.item_id,
    at-lookup item_id input.item_id db.items,
    modified-at item_id input.item_id
        (λ r. r.revision == input.expected_revision && is_status r.status current.status) db.items,
    claimed_items input.item_id,
  )

  claimed_items_else :
      (k : String)
      → input.item_id ≢ k
      → lookup item_id k (claimed_tables input current db).items ≡ lookup item_id k db.items
  claimed_items_else k n = ground (arith, claimed_items k, at-lookup item_id k db.items)

  claimed_claims_else :
      (k : String)
      → input.item_id ≢ k
      → lookup claim_id k (claimed_tables input current db).claims ≡ lookup claim_id k db.claims
  unfolding claimed_tables
  claimed_claims_else k n =
      ground (arith, lookup-append claim_id k db.claims (claim_row input current))

  claimed-IsConsistent : IsConsistent (claimed_tables input current db)
  unfolding claimed_tables
  claimed-IsConsistent = record {
    items_keyed = λ k. ground (
      arith,
      h.items_keyed k,
      modified-update item_id (claimable input current) (deliver_row input current) (λ r. refl) k
          db.items,
    );
    claims_keyed = λ k. ground (
      arith,
      h.claims_keyed k,
      exists-lookup claim_id current.id db.claims,
      modified-absent_key claim_id current.id db.claims,
      modified-append claim_id k db.claims (claim_row input current),
    );
    agree =
        agree_all input.item_id db (claimed_tables input current db) h claimed_items_else
          claimed_claims_else claimed_here;
  }

-- The record that a read returns has the key that was read.
id-read_queue :
    (id : String) (db : Database) (r : QueueRecord) → read_queue db id ≡ ok (some r) → r.id ≡ id
unfolding read_queue
id-read_queue id db r e = ground (arith, at-lookup item_id id db.items)

-- What a claim that succeeds has found and done.
pub record Claimed (input : ClaimInput) (db next : Database) (c : ClaimedDelivery) : Type 0 where
  pub current : QueueRecord
  pub was_read : read_queue db input.item_id ≡ ok (some current)
  pub was_eligible : eligible input current ≡ true
  pub one : modified (claimable input current) db.items ≡ 1
  pub new : exists (at claim_id current.id) db.claims ≡ false
  pub next_tables : claimed_tables input current db ≡ next
  pub item_read : required_queue next current.id ≡ ok c.item
  pub identity : identity_of input current ≡ c.identity

pub claim-Claimed :
    (input : ClaimInput) (db next : Database) (c : ClaimedDelivery)
    → claim input db ≡ ok (next, c)
    → Claimed input db next c
unfolding claim
claim-Claimed input db next c e = go (read_queue db input.item_id) refl e
  where
    go :
        (m : Result (Option QueueRecord))
        → read_queue db input.item_id ≡ m
        → (m >>= claim_read input db) ≡ ok (next, c)
        → Claimed input db next c
    go (err x) read e = cc
    go (ok none) read e = cc
    go (ok (some current)) read e = record {
      current = current;
      was_read = read;
      was_eligible = ground arith;
      one = ground arith;
      new = ground arith;
      next_tables = ground arith;
      item_read = ground arith;
      identity = ground arith;
    }

pub claim-IsConsistent :
    (input : ClaimInput) (db next : Database) (c : ClaimedDelivery)
    → IsConsistent db
    → claim input db ≡ ok (next, c)
    → IsConsistent next
claim-IsConsistent input db next c h e =
    let d = claim-Claimed input db next c e in
    rw (← d.next_tables) (
      claimed-IsConsistent input d.current db h
        (id-read_queue input.item_id db d.current d.was_read) d.one d.new)

-- An eligible record is that of a waiting item.
eligible_waiting :
    (input : ClaimInput) (db : Database) (current : QueueRecord)
    → read_queue db input.item_id ≡ ok (some current)
    → eligible input current ≡ true
    → holds
        (λ r. is_status r.status pending || is_status r.status paused)
        (lookup item_id input.item_id db.items)
      ≡ true
unfolding read_queue
eligible_waiting input db current read e = ground arith

-- The claimed item was waiting, and is being delivered.
pub claim_item :
    (input : ClaimInput) (db next : Database) (c : ClaimedDelivery)
    → IsConsistent db
    → claim input db ≡ ok (next, c)
    → (holds
          (λ r. is_status r.status pending || is_status r.status paused)
          (lookup item_id input.item_id db.items)
        ≡ true)
      × (holds is_delivering (lookup item_id input.item_id next.items) ≡ true)
claim_item input db next c h e =
    let d = claim-Claimed input db next c e in
    (
      eligible_waiting input db d.current d.was_read d.was_eligible,
      rw (← d.next_tables) (
          claimed_delivering input d.current db h
            (id-read_queue input.item_id db d.current d.was_read) d.one d.new),
    )

pub claim_else :
    (input : ClaimInput) (db next : Database) (c : ClaimedDelivery) (k : String)
    → IsConsistent db
    → claim input db ≡ ok (next, c)
    → input.item_id ≢ k
    → lookup item_id k next.items ≡ lookup item_id k db.items
claim_else input db next c k h e n =
    let d = claim-Claimed input db next c e in
    rw (← d.next_tables) (
      claimed_items_else input d.current db h (id-read_queue input.item_id db d.current d.was_read)
        d.one d.new k n)

-- The identity that a claim hands out is that of the item that was asked for.
pub claim_identity :
    (input : ClaimInput) (db next : Database) (c : ClaimedDelivery)
    → claim input db ≡ ok (next, c)
    → c.identity.queue_item_id ≡ input.item_id
claim_identity input db next c e =
    let d = claim-Claimed input db next c e in
    let i : d.current.id ≡ input.item_id = id-read_queue input.item_id db d.current d.was_read in
    ap (λ (x : DeliveryIdentity). x.queue_item_id) (sym d.identity) ∙ i
