-- ===== src/Queue/Repository/Exclusive.antt =====
-- Two claims of one item in apps/agent/src/v2/repositories/queue-repository.ts.
use codex_everywhere.Prelude.{◌≡◌, true, String, arith}
use codex_everywhere.Table.{lookup}
use codex_everywhere.Table.Laws.{holds}
use codex_everywhere.Queue.Rows.{
  Database, ClaimedDelivery, state_conflict, ok, err, item_id, read_queue,
}
use codex_everywhere.Queue.Claims.{ClaimInput, claim}
use codex_everywhere.Queue.Outcomes.{is_delivering}
use codex_everywhere.Queue.Repository.Consistent.{IsConsistent}
use codex_everywhere.Queue.Repository.Steps.{claim-IsConsistent, claim_item}

-- An item that is being delivered is not eligible.
delivering-conflict :
    (again : ClaimInput) (db : Database)
    → IsConsistent db
    → holds is_delivering (lookup item_id again.item_id db.items) ≡ true
    → claim again db ≡ err (state_conflict again.item_id)
unfolding claim read_queue
delivering-conflict again db h d = ground (arith, d, h.agree again.item_id)

delivering_at :
    (k j : String) (db : Database)
    → k ≡ j
    → holds is_delivering (lookup item_id j db.items) ≡ true
    → holds is_delivering (lookup item_id k db.items) ≡ true
delivering_at k j db p d = rw p d

-- On consistent tables, once a claim has succeeded, every further claim of the same item is refused with
-- a conflict, whatever revision it expects and whether it would start a turn or steer one.
pub claim-excludes :
    (input again : ClaimInput) (db next : Database) (c : ClaimedDelivery)
    → IsConsistent db
    → claim input db ≡ ok (next, c)
    → again.item_id ≡ input.item_id
    → claim again next ≡ err (state_conflict again.item_id)
claim-excludes input again db next c h e p =
    delivering-conflict again next (claim-IsConsistent input db next c h e)
      (delivering_at again.item_id input.item_id next p (claim_item input db next c h e).1)
