-- ===== src/Lease/Thread/Handles.antt =====
-- The handles that `#attachReference` of apps/agent/src/v2/services/thread-lease-manager.ts gives on a lease, and
-- all that can happen to the lease meanwhile.
use codex_everywhere.Prelude.{
  ℕ, suc, Bool, true, false, List, [], ◌∷◌, Option, none, some, String, ◌==◌, if◌then◌else◌,
}
use codex_everywhere.Interaction.{InteractionResponse, ServerRequest}
use codex_everywhere.Lease.Turns.{release_terminal_turn, release_turn_start_response, fire, Timer}
use codex_everywhere.Lease.Thread.{
  ThreadLeaseReferenceKind, LeaseError, Lease, new_lease, add_reference, release_reference,
  next_cleanup,
}
use codex_everywhere.Lease.Thread.Events.{
  Notification, notification, server_request, client_closed, close,
}
use codex_everywhere.Lease.Thread.Calls.{
  Thread, respond_to_interaction, note_turn_started, observe_turn, observe_start,
  adopt_authoritative_thread,
}

-- A function `release`: with its own `released`.
pub record Handle : Type 0 where
  pub number : ℕ
  pub kind : ThreadLeaseReferenceKind
  pub id : String
  pub released : Bool

pub record Attached : Type 0 where
  pub lease : Lease
  pub handles : List Handle
  pub next_number : ℕ

unfoldable pub handle_at : ℕ → List Handle → Option Handle
handle_at n [] = none
handle_at n (h ∷ hs) = let rest = handle_at n hs in if h.number == n then some h else rest

unfoldable pub mark : ℕ → List Handle → List Handle
mark n [] = []
mark n (h ∷ hs) =
    let rest = mark n hs in if h.number == n then record h { released = true } ∷ hs else h ∷ rest

abbrev pub release_found : ℕ → Option Handle → Attached → Attached
release_found n none a = a
release_found n (some h) a =
    if h.released
    then a
    else record a { lease = release_reference h.kind h.id a.lease; handles = mark n a.handles }

unfoldable pub release : ℕ → Attached → Attached
unfolding release_reference handle_at mark
release n a = release_found n (handle_at n a.handles) a

abbrev pub attach_added :
    Option Bool
    → ThreadLeaseReferenceKind
    → String
    → Attached
    → Lease × Option LeaseError
    → Attached
attach_added owner kind id a (l, some e) = a
attach_added owner kind id a (l, none) =
    let attached = record a {
      lease = l;
      handles =
          record { number = a.next_number; kind = kind; id = id; released = false } ∷ a.handles;
      next_number = suc a.next_number;
    } in
    elim owner [
      | none ↦ attached
      | some defers ↦ if defers then attached else release a.next_number attached
    ]

-- Whether there is a scope that owns the handle, and whether it takes the release in.
unfoldable pub attach_reference :
    Option Bool → ThreadLeaseReferenceKind → String → Attached → Attached
unfolding add_reference release
attach_reference owner kind id a = attach_added owner kind id a (add_reference kind id a.lease)

pub data Step : Type 0 where
  attaches : Option Bool → ThreadLeaseReferenceKind → String → Step
  releases : ℕ → Step
  notifies : Notification → Step
  requests : Bool → ServerRequest → Option String → Step
  client_closes : Step
  closes : String → Step
  responds : Bool → String → InteractionResponse → Step
  notes : String → Step
  observes : String → Step
  observes_start : Step
  releases_turn : String → Step
  releases_start : Step
  fires : Timer → Step
  adopts : Thread → Step
  cleans : Bool → Step

unfoldable pub on_lease : Step → Lease → Lease
unfolding notification server_request client_closed close respond_to_interaction note_turn_started
    observe_turn observe_start adopt_authoritative_thread next_cleanup release_terminal_turn
    release_turn_start_response fire
on_lease (notifies n) l = notification n l
on_lease (requests rejects r nested) l = server_request rejects r nested l
on_lease client_closes l = client_closed l
on_lease (closes reason) l = close reason l
on_lease (responds works id response) l = (respond_to_interaction works id response l).0
on_lease (notes id) l = (note_turn_started id l).0
on_lease (observes id) l = (observe_turn id l).0
on_lease observes_start l = (observe_start l).0
on_lease (releases_turn id) l = record l { turns = release_terminal_turn id l.turns }
on_lease releases_start l = record l { turns = release_turn_start_response l.turns }
on_lease (fires t) l = record l { turns = fire t l.turns }
on_lease (adopts t) l = (adopt_authoritative_thread t l).0
on_lease (cleans works) l = next_cleanup works l
on_lease _ l = l

unfoldable pub step : Step → Attached → Attached
unfolding attach_reference release on_lease
step (attaches owner kind id) a = attach_reference owner kind id a
step (releases n) a = release n a
step e a = record a { lease = on_lease e a.lease }

unfoldable pub run : List Step → Attached → Attached
unfolding step
run [] a = a
run (e ∷ es) a = run es (step e a)

unfoldable pub new_attached : String → Attached
unfolding new_lease
new_attached id = record { lease = new_lease id; handles = []; next_number = 0 }
