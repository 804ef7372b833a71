-- ===== src/Queue/Requests/Begun.antt =====
-- What a dispatch and a steer leave: the claim of the delivery that they begin covers its request.
use codex_everywhere.Prelude.{
  ℕ, ◌+◌, refl, Bool, not, ◌||◌, if_either, Option, none, some, String, arith,
}
use codex_everywhere.Queue.Rows.{
  pending, paused, turn_start, turn_steer, Database, QueueRecord, ClaimedDelivery, state_conflict,
  Result, ok, err,
}
use codex_everywhere.Queue.Items.{transaction, pause, get}
use codex_everywhere.Queue.Claims.{claim}
use codex_everywhere.Queue.Repository.Steps.{transition-IsConsistent}
use codex_everywhere.Queue.Repository.History.{left}
use codex_everywhere.Queue.Repository.History.Spent.{transition-spent}
use codex_everywhere.Queue.Repository.Reads.{next_pending}
use codex_everywhere.Queue.Delivery.{World, Answer, returned, thrown, repository, with_db, filed}
use codex_everywhere.Queue.Service.{
  LeaseState, idle, running, waiting_input, failed, Snapshot, Surroundings, Sending, claim_of,
  paused_answer, pause_item, dispatch_claimed, dispatch_state, dispatch_snapshot, dispatch_pending,
  dispatch_read, dispatch_once, unavailable, steer_claimed, steer_turn, steer_snapshot, steer_read,
  steer, workspace_unchanged,
}
use codex_everywhere.Queue.Requests.Covered.{
  IsCovered, own, transaction-IsCovered, ClaimCovered, claim-ClaimCovered,
}

module _ (k : String) (p r : ℕ) where
  -- A dispatch that begins a delivery, or none.
  abbrev pub IsDispatched : World × Answer (Option Sending) → Type 0
  IsDispatched (w, returned (some x)) = IsCovered k (own k x.identity + p) r w
  IsDispatched (w, returned none) = IsCovered k p r w
  IsDispatched (w, thrown e) = IsCovered k p r w

  abbrev pub IsSteered : World × Answer Sending → Type 0
  IsSteered (w, returned x) = IsCovered k (own k x.identity + p) r w
  IsSteered (w, thrown e) = IsCovered k p r w

  pause-IsDispatched :
      (s : Surroundings) (current : QueueRecord) (w : World)
      → IsCovered k p r w
      → IsDispatched (pause_item s current w)
  unfolding pause_item pause
  pause-IsDispatched s current w h =
      go (filed s.pause_durable (pause current.id s.pause_time w.db) w)
        (transaction s.pause_durable (pause current.id s.pause_time) w.db)
        (transaction-IsCovered k p r r w s.pause_durable (pause current.id s.pause_time) h
          (omega arith)
          (λ n x e. (
            transition-IsConsistent current.id pending paused s.pause_time w.db n x h.0 refl refl e,
            omega (
              arith,
              transition-spent k w.db h.0 current.id pending paused s.pause_time n x refl e,
            ),
          )))
    where
      go :
          (w : World) (q : Database × Result QueueRecord)
          → IsCovered k p r (with_db (left q) w)
          → IsDispatched (paused_answer w q)
      go w (db, err e) f = f
      go w (db, ok x) f = f

  module _ (s : Surroundings) (current : QueueRecord) where
    claimed-IsDispatched :
        (snapshot : Snapshot) (w : World) (q : Database × Result ClaimedDelivery)
        → ClaimCovered k p r w q
        → IsDispatched (dispatch_claimed s snapshot w q)
    claimed-IsDispatched snapshot w (db, err (state_conflict id)) f = f
    claimed-IsDispatched snapshot w (db, err _) f = f
    claimed-IsDispatched snapshot w (db, ok c) f = f

    state-IsDispatched :
        (state : LeaseState) (snapshot : Snapshot) (w : World)
        → IsCovered k p r w
        → IsDispatched (dispatch_state state s snapshot current w)
    state-IsDispatched running snapshot w h = h
    state-IsDispatched waiting_input snapshot w h = h
    state-IsDispatched failed snapshot w h = pause-IsDispatched s current w h
    state-IsDispatched idle snapshot w h =
        claimed-IsDispatched snapshot
          (filed s.claim_durable (claim (claim_of s current turn_start none) w.db) w)
          (transaction s.claim_durable (claim (claim_of s current turn_start none)) w.db)
          (claim-ClaimCovered k p r (claim_of s current turn_start none) s.claim_durable w h)

    snapshot-IsDispatched :
        (m : Option Snapshot) (w : World)
        → IsCovered k p r w
        → IsDispatched (dispatch_snapshot m s current w)
    snapshot-IsDispatched none w h = h
    snapshot-IsDispatched (some snapshot) w h =
        if_either IsDispatched (workspace_unchanged s current snapshot)
          (state-IsDispatched snapshot.state snapshot w h) (pause-IsDispatched s current w h)

    pending-IsDispatched :
        (w : World) → IsCovered k p r w → IsDispatched (dispatch_pending s current w)
    unfolding dispatch_pending
    pending-IsDispatched w h =
        if_either IsDispatched (not s.allowed) (pause-IsDispatched s current w h)
          (if_either IsDispatched (not s.leased) h (snapshot-IsDispatched s.snapshot w h))

  pub dispatch_once-IsDispatched :
      (s : Surroundings) (closed : Bool) (w : World)
      → IsCovered k p r w
      → IsDispatched (dispatch_once s closed w)
  unfolding dispatch_once
  dispatch_once-IsDispatched s closed w h =
      if_either IsDispatched (not w.started || closed) h (go (next_pending w.db))
    where
      go : (m : Result (Option QueueRecord)) → IsDispatched (dispatch_read s w m)
      go (err e) = h
      go (ok none) = h
      go (ok (some current)) = pending-IsDispatched s current w h

  unavailable-IsSteered : (q : World × Answer Sending) → IsSteered q → IsSteered (unavailable q)
  unavailable-IsSteered (w, thrown (repository (state_conflict id))) f = f
  unavailable-IsSteered (w, thrown _) f = f
  unavailable-IsSteered (w, returned x) f = f

  module _ (s : Surroundings) (current : QueueRecord) (text : String) where
    claimed-IsSteered :
        (snapshot : Snapshot) (t : String) (w : World) (q : Database × Result ClaimedDelivery)
        → ClaimCovered k p r w q
        → IsSteered (steer_claimed s snapshot t w q)
    claimed-IsSteered snapshot t w (db, err e) f = f
    claimed-IsSteered snapshot t w (db, ok c) f = f

    turn-IsSteered :
        (state : LeaseState) (turn : Option String) (snapshot : Snapshot) (w : World)
        → IsCovered k p r w
        → IsSteered (steer_turn state turn s snapshot current text w)
    turn-IsSteered running (some t) snapshot w h =
        if_either IsSteered (workspace_unchanged s current snapshot)
          (claimed-IsSteered snapshot t
            (filed s.claim_durable (claim (claim_of s current turn_steer (some text)) w.db) w)
            (transaction s.claim_durable (claim (claim_of s current turn_steer (some text))) w.db)
            (claim-ClaimCovered k p r (claim_of s current turn_steer (some text)) s.claim_durable w
              h))
          h
    turn-IsSteered _ _ snapshot w h = h

    snapshot-IsSteered :
        (m : Option Snapshot) (w : World)
        → IsCovered k p r w
        → IsSteered (steer_snapshot m s current text w)
    snapshot-IsSteered none w h = h
    snapshot-IsSteered (some snapshot) w h =
        turn-IsSteered snapshot.state snapshot.current_turn_id snapshot w h

  pub steer-IsSteered :
      (s : Surroundings) (id text : String) (w : World)
      → IsCovered k p r w
      → IsSteered (steer s id text w)
  unfolding steer
  steer-IsSteered s id text w h = go (get id w.db)
    where
      go : (m : Result (Option QueueRecord)) → IsSteered (steer_read s text w m)
      go (err e) = h
      go (ok none) = h
      go (ok (some current)) = if_either IsSteered (not s.allowed) h (
          if_either IsSteered (not s.leased) h (
            unavailable-IsSteered (steer_snapshot s.snapshot s current text w)
              (snapshot-IsSteered s current text s.snapshot w h)))
