-- ===== src/Lease/Thread/Kept.antt =====
-- The references of a `ThreadLease` of apps/agent/src/v2/services/thread-lease-manager.ts through
-- all else that happens.
use codex_everywhere.Prelude.{
  ◌≡◌, refl, inl, inr, Bool, true, List, [], ◌∷◌, Option, none, some, String, Option-cases, arith,
}
use codex_everywhere.Interaction.{
  Broker, BrokerEntry, not_an_object, missing_thread_id, lease_mismatch, duplicate,
  unsupported_method, already_resolved, kind_mismatch, callback_failed, Interaction, Outcome,
  returned, thrown, InteractionResponse, ServerRequest,
}
use codex_everywhere.Interaction.{add as broker_add, respond as broker_respond}
use codex_everywhere.Lease.Thread.{
  Cleanup, when_idle, at_once, Lease, enter, failed, run_cleanup, first_cleanup, next_cleanup,
}
use codex_everywhere.Lease.Thread.Events.{
  Notification, tell, changed_by, update_state, notification, hear_failed, hear_all_failed,
  fail_interactions, asked, request_thread_id, server_request, client_closed, close,
}
use codex_everywhere.Lease.Thread.Calls.{
  Thread, responded, respond_to_interaction, note_turn_started, observe_turn, observe_start,
  adopt_status, adopt_directory, adopt_authoritative_thread,
}
use codex_everywhere.Lease.Thread.Handles.{
  Step, attaches, releases, notifies, requests, client_closes, closes, responds, notes, observes,
  observes_start, releases_turn, releases_start, fires, adopts, cleans, on_lease,
}

-- What a change of the lease leaves.
abbrev pub Keeps : Lease → Lease → Type 0
Keeps l m = m.references ≡ l.references

run_cleanup-Keeps : (works : Bool) (c : Cleanup) (l : Lease) → Keeps l (run_cleanup works c l)
unfolding run_cleanup
run_cleanup-Keeps works at_once l = ground arith
run_cleanup-Keeps works when_idle l = ground arith

next_cleanup-Keeps : (works : Bool) (l : Lease) → Keeps l (next_cleanup works l)
unfolding next_cleanup
next_cleanup-Keeps works l = go l.cleanups
  where
    go : (cs : List Cleanup) → Keeps l (first_cleanup works cs l)
    go [] = refl
    go (c ∷ cs) = run_cleanup-Keeps works c (record l { cleanups = cs })

hear_all_failed-Keeps :
    (reason : String) (es : List BrokerEntry) (l : Lease) → Keeps l (hear_all_failed reason es l)
hear_all_failed-Keeps reason [] l = refl
hear_all_failed-Keeps reason (e ∷ es) l =
    hear_all_failed-Keeps reason es (hear_failed e.interaction.id reason l)

tell-Keeps : (n : Notification) (l : Lease) → Keeps l (tell n l)
tell-Keeps n l = elim (Option-cases n.usage) [
  | inl without ↦ ground (arith, without)
  | inr (u, there) ↦ ground (arith, there)
]

changed-Keeps : (n : Notification) (l : Lease) → Keeps l (changed_by n l)
changed-Keeps n l = ground arith

update-Keeps : (n : Notification) (l : Lease) → Keeps l (update_state n l)
unfolding update_state
update-Keeps n l = ground (arith, changed-Keeps n l)

notification-Keeps : (n : Notification) (l : Lease) → Keeps l (notification n l)
unfolding notification
notification-Keeps n l = ground (arith, tell-Keeps n (update_state n l), update-Keeps n l)

request-Keeps :
    (rejects : Bool) (r : ServerRequest) (nested : Option String) (l : Lease)
    → Keeps l (server_request rejects r nested l)
unfolding server_request
request-Keeps rejects r nested l =
    go (request_thread_id (elim r.params [ none ↦ none | some p ↦ p.thread_id ]) nested)
      (broker_add r l.thread_id l.interactions)
  where
    go :
        (owner : Option String) (o : Broker × Outcome Interaction)
        → Keeps l (asked rejects r owner l o)
    go owner (b, returned i) = refl
    go owner (b, thrown e) = ground arith

fail-Keeps : (reason : String) (l : Lease) → Keeps l (fail_interactions reason l)
unfolding fail_interactions
fail-Keeps reason l = hear_all_failed-Keeps reason l.interactions.entries _

client_closed-Keeps : (l : Lease) → Keeps l (client_closed l)
unfolding client_closed
client_closed-Keeps l = ground (arith, fail-Keeps "app-server-client-closed" (enter failed l))

close-Keeps : (reason : String) (l : Lease) → Keeps l (close reason l)
unfolding close
close-Keeps reason l = ground (arith, fail-Keeps reason (record l { closed = true }))

respond-Keeps :
    (works : Bool) (id : String) (response : InteractionResponse) (l : Lease)
    → Keeps l (respond_to_interaction works id response l).0
unfolding respond_to_interaction
respond-Keeps works id response l =
    ground (arith, go (broker_respond works id response l.interactions))
  where
    go : (o : Broker × Outcome (Unit {0})) → Keeps l (responded id l o).0
    go (b, returned u) = ground arith
    go (b, thrown callback_failed) = refl
    go (b, thrown e) = elim e [
      | not_an_object ↦ refl
      | missing_thread_id ↦ refl
      | lease_mismatch ↦ refl
      | duplicate ↦ refl
      | unsupported_method ↦ refl
      | already_resolved ↦ refl
      | kind_mismatch ↦ refl
      | callback_failed ↦ refl
    ]

note-Keeps : (id : String) (l : Lease) → Keeps l (note_turn_started id l).0
unfolding note_turn_started
note-Keeps id l = ground arith

observe-Keeps : (id : String) (l : Lease) → Keeps l (observe_turn id l).0
unfolding observe_turn
observe-Keeps id l = ground arith

observe_start-Keeps : (l : Lease) → Keeps l (observe_start l).0
unfolding observe_start
observe_start-Keeps l = ground arith

adopt-Keeps : (t : Thread) (l : Lease) → Keeps l (adopt_authoritative_thread t l).0
unfolding adopt_authoritative_thread
adopt-Keeps t l = ground (arith, directory t.cwd)
  where
    status : (o : Option String) (m : Lease) → Keeps m (adopt_status t o m).0
    status none m = refl
    status (some x) m = ground arith

    directory : (o : Option String) → Keeps l (adopt_directory t o l).0
    directory none = refl
    directory (some cwd) = ground (arith, status t.status (record l { workspace_path = some cwd }))

pub on_lease-Keeps : (e : Step) (l : Lease) → Keeps l (on_lease e l)
unfolding on_lease
on_lease-Keeps (notifies n) l = notification-Keeps n l
on_lease-Keeps (requests rejects r nested) l = request-Keeps rejects r nested l
on_lease-Keeps client_closes l = client_closed-Keeps l
on_lease-Keeps (closes reason) l = close-Keeps reason l
on_lease-Keeps (responds works id response) l = respond-Keeps works id response l
on_lease-Keeps (notes id) l = note-Keeps id l
on_lease-Keeps (observes id) l = observe-Keeps id l
on_lease-Keeps observes_start l = observe_start-Keeps l
on_lease-Keeps (releases_turn id) l = refl
on_lease-Keeps releases_start l = refl
on_lease-Keeps (fires t) l = refl
on_lease-Keeps (adopts t) l = adopt-Keeps t l
on_lease-Keeps (cleans works) l = next_cleanup-Keeps works l
on_lease-Keeps (attaches owner kind id) l = refl
on_lease-Keeps (releases n) l = refl
