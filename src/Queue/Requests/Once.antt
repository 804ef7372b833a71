-- ===== src/Queue/Requests/Once.antt =====
-- The requests for an item over any requests to the Queue service, any order of the deliveries that
-- they begin, and any restarts, counted.
use codex_everywhere.Prelude.{
  ℕ, ◌+◌, ◌≤◌, ◌≡◌, refl, if_either, List, [], ◌∷◌, Option, none, some, String, same, ◌==◌, ◌-◌,
  Bool-cases, inl, inr, if◌then◌else◌, arith,
}
use codex_everywhere.Queue.Rows.{retry, dismiss}
use codex_everywhere.Queue.Repository.Consistent.{IsConsistent}
use codex_everywhere.Queue.Repository.History.{retries_item}
use codex_everywhere.Queue.Repository.History.Spent.{spent_at}
use codex_everywhere.Queue.Delivery.{
  World, Answer, returned, thrown, Delivering, observes, accepted_turn,
}
use codex_everywhere.Queue.Delivery.Outcome.{requests}
use codex_everywhere.Queue.Service.{Sending, dispatch_once, steer}
use codex_everywhere.Queue.Requests.{
  Service, Call, starts, adds, removes, steers, dispatches, sends, answers, restarts, beside, pick,
  sent, replied, dispatched, steered, serve, run,
}
use codex_everywhere.Queue.Requests.Covered.{
  IsCovered, own, weaken, answered-IsCovered, requested-IsCovered, closed-IsCovered,
}
use codex_everywhere.Queue.Requests.Single.{
  start-IsCovered, add-IsCovered, remove-IsCovered, acknowledge-IsCovered,
}
use codex_everywhere.Queue.Requests.Begun.{
  IsDispatched, dispatch_once-IsDispatched, IsSteered, steer-IsSteered,
}

-- The retries that the user asks for.
unfoldable pub retries_in : String → Call → ℕ
retries_in k (Call.acknowledges durable id retry now) = if same id k then 1 else 0
retries_in k _ = 0

unfoldable pub retries : String → List Call → ℕ
retries k [] = 0
retries k (c ∷ cs) = retries_in k c + retries k cs

-- How many of the deliveries are of the item.
abbrev permits : String → List Sending → ℕ
permits k [] = 0
permits k (x ∷ xs) = own k x.identity + permits k xs

-- What a place of a list holds, and the rest.
abbrev Parts : String → List Sending → Option (Sending × List Sending) → Type 0
Parts k xs none = 0 ≤ permits k xs
Parts k xs (some (x, rest)) = permits k xs ≡ own k x.identity + permits k rest

pick-Parts : (k : String) (n : ℕ) (xs : List Sending) → Parts k xs (pick n xs)
pick-Parts k n [] = omega arith
pick-Parts k n (x ∷ xs) = elim (Bool-cases (n == 0)) [
  | inl e ↦ rw e refl
  | inr e ↦ rw e (go (pick (n - 1) xs) (pick-Parts k (n - 1) xs))
]
  where
    go : (m : Option (Sending × List Sending)) → Parts k xs m → Parts k (x ∷ xs) (beside x m)
    go none q = omega arith
    go (some (y, ys)) q = omega (arith, q)

abbrev IsKept : String → ℕ → Service → Type 0
IsKept k r y = IsCovered k (permits k y.sending) r y.world

no_retry : (k : String) (r : ℕ) (y : Service) → IsKept k r y → IsKept k (0 + r) y
no_retry k r y h =
    weaken k (permits k y.sending) (permits k y.sending) r (0 + r) y.world (omega arith)
      (omega arith) h

module _ (k : String) (r : ℕ) (y : Service) (h : IsKept k r y) where
  sent-IsKept :
      (d : Delivering) (m : Option (Sending × List Sending))
      → Parts k y.sending m
      → IsKept k r (sent d y m)
  sent-IsKept d none q = h
  sent-IsKept d (some (x, xs)) q =
      if_either (IsKept k r) d.lease_open
        (requested-IsCovered k (permits k xs) r x.identity d x.identity.operation x.item x.expected
          y.world
          (weaken k (permits k y.sending) (own k x.identity + permits k xs) r r y.world
            (omega (arith, q)) (omega arith) h))
        (closed-IsCovered k (permits k xs) r x.identity d
          (observes x.identity.operation x.eligible x.expected) x.item x.expected x.eligible y.world
          (weaken k (permits k y.sending) (permits k xs) r r y.world (omega (arith, q))
            (omega arith) h))

  replied-IsKept :
      (d : Delivering) (m : Option (Sending × List Sending)) → IsKept k r (replied d y m)
  replied-IsKept d none = h
  replied-IsKept d (some (x, xs)) =
      answered-IsCovered k (permits k y.sending) r x.identity d x.item x.eligible y.world
        (accepted_turn x.identity.operation x.expected d.reply) h

  dispatched-IsKept :
      (q : World × Answer (Option Sending))
      → IsDispatched k (permits k y.sending) r q
      → IsKept k r (dispatched y q)
  dispatched-IsKept (w, returned (some x)) f = f
  dispatched-IsKept (w, returned none) f = f
  dispatched-IsKept (w, thrown e) f = f

  steered-IsKept :
      (q : World × Answer Sending)
      → IsSteered k (permits k y.sending) r q
      → IsKept k r (steered y q)
  steered-IsKept (w, returned x) f = f
  steered-IsKept (w, thrown e) f = f

  serve-IsKept : (c : Call) → IsKept k (retries_in k c + r) (serve c y)
  unfolding serve retries_in retries_item
  serve-IsKept (starts closed durable now) =
      no_retry k r (serve (starts closed durable now) y)
        (start-IsCovered k (permits k y.sending) r y.world h closed durable now)
  serve-IsKept (adds s a) =
      no_retry k r (serve (adds s a) y) (add-IsCovered k (permits k y.sending) r y.world h s a)
  serve-IsKept (removes durable id) =
      no_retry k r (serve (removes durable id) y)
        (remove-IsCovered k (permits k y.sending) r y.world h durable id)
  serve-IsKept (steers s id text) = no_retry k r (serve (steers s id text) y) (
      steered-IsKept (steer s id text y.world)
        (steer-IsSteered k (permits k y.sending) r s id text y.world h))
  serve-IsKept (Call.acknowledges durable id retry now) =
      acknowledge-IsCovered k (permits k y.sending) r y.world h durable id retry now
  serve-IsKept (Call.acknowledges durable id dismiss now) =
      acknowledge-IsCovered k (permits k y.sending) r y.world h durable id dismiss now
  serve-IsKept (dispatches s closed) = no_retry k r (serve (dispatches s closed) y) (
      dispatched-IsKept (dispatch_once s closed y.world)
        (dispatch_once-IsDispatched k (permits k y.sending) r s closed y.world h))
  serve-IsKept (sends n d) =
      no_retry k r (serve (sends n d) y)
        (sent-IsKept d (pick n y.sending) (pick-Parts k n y.sending))
  serve-IsKept (answers n d) =
      no_retry k r (serve (answers n d) y) (replied-IsKept d (pick n y.awaiting))
  serve-IsKept restarts = (h.1, h.1, omega (arith, h.3), omega (arith, h.3))

run-IsKept :
    (k : String) (cs : List Call) (r : ℕ) (y : Service)
    → IsKept k r y
    → IsKept k (retries k cs + r) (run cs y)
unfolding run retries
run-IsKept k [] r y h = no_retry k r y h
run-IsKept k (c ∷ cs) r y h =
    let z = run cs (serve c y) in
    weaken k (permits k z.sending) (permits k z.sending) (retries k cs + (retries_in k c + r))
      (retries_in k c + retries k cs + r) z.world (omega arith) (omega arith)
      (run-IsKept k cs (retries_in k c + r) (serve c y) (serve-IsKept k r y h c))

spent-le-one : (k : String) (w : World) → spent_at k w.db ≤ 1
spent-le-one k w = ground arith

-- From consistent tables in memory and in the file, an empty log and no delivery begun: whatever
-- requests the service gets, whatever fails or cannot be written under them, in whatever order the
-- deliveries that they begin send their request and get its answer, and wherever the Agent stops and
-- opens the file again, the turn/start and turn/steer requests for a Queue item number at most one
-- more than the retries that the user asks for; and both tables are consistent at the end.
pub requests-le-retries :
    (k : String) (cs : List Call) (y : Service)
    → IsConsistent y.world.db
    → IsConsistent y.world.disk
    → y.world.log ≡ []
    → y.sending ≡ []
    → (let z = run cs y in
        (requests k z.world.log ≤ retries k cs + 1)
        × IsConsistent z.world.db
        × IsConsistent z.world.disk)
requests-le-retries k cs y m f e s =
    let none_yet : requests k y.world.log ≡ 0 = rw e refl in
    let none_begun : permits k y.sending ≡ 0 = rw s refl in
    let b =
      run-IsKept k cs 0 y
        (m, f, omega (arith, none_yet, none_begun), omega (arith, none_yet, none_begun)) in
    (omega (arith, b.2, spent-le-one k (run cs y).world), b.0, b.1)
