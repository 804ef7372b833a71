-- ===== src/Web/ThreadActor/Refresh.antt =====
-- Whether the thread actor waits for something: its state beside the request that is in flight.
use codex_everywhere.Prelude.{
  Bool-cases, inl, inr, ◌≡◌, refl, Bool, true, false, ◌&&◌, ◌||◌, not, List, [], ◌∷◌, Option, none,
  some, String, same_refl, if◌then◌else◌, arith,
}
use codex_everywhere.Web.Timeline.{Snapshot, Settings, HistoryPage}
use codex_everywhere.Web.ThreadActor.{
  ThreadActorState, broken, GatewayEvent, Event, open_thread, opened, settings_updated,
  load_earlier, history_loaded, history_failed, gateway_event, reconnects, close, failed, Effect,
  fetch, history, Move, is_text, is_loading, reduce_open, reduce_opened, reduce_settings,
  reduce_load_earlier, load_from, reduce_history, then_refresh, apply_gateway_event, apply_to,
  apply_shown, context_usage_changed, state_changed, compacted, interaction_created, generic,
  interaction_ended, lease_failed, other_event, reduce_thread, initial_thread,
}

pub record Flight : Type 0 where
  pub actor : ThreadActorState
  pub effect : Option Effect

abbrev pub is_fetch : Option Effect → Bool
is_fetch (some (fetch t p)) = true
is_fetch _ = false

abbrev pub is_history : Option Effect → Bool
is_history (some (history t c)) = true
is_history _ = false

-- A request for the thread, and one for its history.
abbrev pub is_fetch_of : Option String → Option Effect → Bool
is_fetch_of thread (some (fetch t p)) = is_text t thread
is_fetch_of thread _ = false

abbrev pub is_history_of : Option String → Option Effect → Bool
is_history_of thread (some (history t c)) = is_text t thread
is_history_of thread _ = false

abbrev pub is_some {ℓ} : {A : Type ℓ} → Option A → Bool
is_some none = false
is_some (some _) = true

-- What is in flight after a transition, of what was.
abbrev pub in_flight : List Effect → Bool → Option Effect → Option Effect
in_flight (e ∷ es) preserve old = some e
in_flight [] preserve old = if preserve then old else none

abbrev pub moved : Move → Option Effect → Flight
moved m old = record { actor = m.state; effect = in_flight m.effects m.preserve_effects old }

-- An answer comes for the request in flight, and ends it.
unfoldable pub step : Event → Flight → Flight
unfolding reduce_thread
step (opened a) f = if is_fetch f.effect then moved (reduce_thread f.actor (opened a)) none else f
step (failed m) f = if is_fetch f.effect then moved (reduce_thread f.actor (failed m)) none else f
step (history_loaded p) f =
    if is_history f.effect then moved (reduce_thread f.actor (history_loaded p)) none else f
step (history_failed m) f =
    if is_history f.effect then moved (reduce_thread f.actor (history_failed m)) none else f
step e f = moved (reduce_thread f.actor e) f.effect

unfoldable pub run : List Event → Flight → Flight
unfolding step
run [] f = f
run (e ∷ es) f = run es (step e f)

-- A state and what is in flight.
pub record IsAwaited (s : ThreadActorState) (e : Option Effect) : Type 0 where
  pub refreshed :
      (not s.refreshing
        || (is_fetch_of s.thread_id e || (is_history_of s.thread_id e && s.refresh_pending)))
      ≡ true
  pub loaded : (not (is_loading s.history_status) || is_history_of s.thread_id e) ≡ true
  pub shown : (not (is_history e) || is_some s.snapshot) ≡ true
  pub named : (not (is_some s.snapshot) || is_some s.thread_id) ≡ true

abbrev IsMoved : Option Effect → Move → Type 0
IsMoved old m = IsAwaited m.state (in_flight m.effects m.preserve_effects old)

open-IsAwaited :
    (t : String) (shown : Option Snapshot) (s : ThreadActorState) (e : Option Effect)
    → s.snapshot ≡ shown
    → IsAwaited s e
    → IsMoved e (reduce_open t shown s)
open-IsAwaited t none s e q h = ground (arith, h, same_refl t)
open-IsAwaited t (some x) s e q h = ground (arith, h, q, same_refl t)

opened-IsAwaited :
    (a : Snapshot) (s : ThreadActorState) (e : Option Effect)
    → is_fetch e ≡ true
    → IsAwaited s e
    → IsMoved none (reduce_opened a s)
unfolding reduce_opened
opened-IsAwaited a s e f h = ground (arith, f, h, same_refl a.thread_id)

settings-IsAwaited :
    (t : String) (x : Settings) (shown : Option Snapshot) (s : ThreadActorState) (e : Option Effect)
    → s.snapshot ≡ shown
    → IsAwaited s e
    → IsMoved e (reduce_settings t x shown s)
settings-IsAwaited t x none s e q h = h
settings-IsAwaited t x (some y) s e q h = ground (arith, h, q)

load_from-IsAwaited :
    (t c : Option String) (b : Bool) (s : ThreadActorState) (e : Option Effect)
    → s.thread_id ≡ t
    → is_some s.snapshot ≡ true
    → s.refreshing ≡ false
    → IsAwaited s e
    → IsMoved e (load_from t c b s)
load_from-IsAwaited none c b s e p q r h = h
load_from-IsAwaited (some t) none b s e p q r h = h
load_from-IsAwaited (some t) (some c) false s e p q r h = h
load_from-IsAwaited (some t) (some c) true s e p q r h = ground (arith, h, p, q, r, same_refl t)

history-IsAwaited :
    (page : HistoryPage) (shown : Option Snapshot) (s : ThreadActorState) (e : Option Effect)
    → s.snapshot ≡ shown
    → is_history e ≡ true
    → IsAwaited s e
    → IsMoved none (reduce_history page shown s)
history-IsAwaited page none s e q f h = ground (arith, h, q, f)
history-IsAwaited page (some x) s e q f h = ground (arith, h, q, f)

history_failed-IsAwaited :
    (m : String) (s : ThreadActorState) (e : Option Effect)
    → is_history e ≡ true
    → IsAwaited s e
    → IsMoved none (reduce_thread s (history_failed m))
unfolding reduce_thread
history_failed-IsAwaited m s e f h = go s.refresh_pending refl s.thread_id refl
  where
    go :
        (b : Bool)
        → s.refresh_pending ≡ b
        → (t : Option String) → s.thread_id ≡ t
        → IsMoved none (
            then_refresh b t (record s {
              history_status = broken;
              history_error = some m;
              refresh_pending = false;
            }))
    go true p none q = ground (arith, h, f, p, q)
    go true p (some t) q = ground (arith, h, f, p, q)
    go false p none q = ground (arith, h, f, p, q)
    go false p (some t) q = ground (arith, h, f, p, q)

shown-IsAwaited :
    (g : GatewayEvent) (t : String) (x : Snapshot) (s : ThreadActorState) (e : Option Effect)
    → s.snapshot ≡ some x
    → IsAwaited s e
    → IsAwaited (apply_shown g t x s) e
shown-IsAwaited (context_usage_changed u v) t x s e q h = h
shown-IsAwaited (state_changed u v) t x s e q h = ground (arith, h, q)
shown-IsAwaited (compacted u) t x s e q h = ground (arith, h, q)
shown-IsAwaited (interaction_created i) t x s e q h = ground (arith, h, q)
shown-IsAwaited (generic u i) t x s e q h = ground (arith, h, q)
shown-IsAwaited (interaction_ended u i) t x s e q h = ground (arith, h, q)
shown-IsAwaited (lease_failed u r) t x s e q h = ground (arith, h, q)
shown-IsAwaited other_event t x s e q h = h

event-IsAwaited :
    (g : GatewayEvent) (t : Option String) (x : Option Snapshot) (s : ThreadActorState)
    (e : Option Effect)
    → s.snapshot ≡ x
    → IsAwaited s e
    → IsAwaited (apply_to g t x s) e
event-IsAwaited g none x s e q h = h
event-IsAwaited (context_usage_changed u v) (some t) x s e q h = ground (arith, h, q)
event-IsAwaited (state_changed u v) (some t) none s e q h = h
event-IsAwaited (compacted u) (some t) none s e q h = h
event-IsAwaited (interaction_created i) (some t) none s e q h = h
event-IsAwaited (generic u i) (some t) none s e q h = h
event-IsAwaited (interaction_ended u i) (some t) none s e q h = h
event-IsAwaited (lease_failed u r) (some t) none s e q h = h
event-IsAwaited other_event (some t) none s e q h = h
event-IsAwaited (state_changed u v) (some t) (some x) s e q h =
    shown-IsAwaited (state_changed u v) t x s e q h
event-IsAwaited (compacted u) (some t) (some x) s e q h = shown-IsAwaited (compacted u) t x s e q h
event-IsAwaited (interaction_created i) (some t) (some x) s e q h =
    shown-IsAwaited (interaction_created i) t x s e q h
event-IsAwaited (generic u i) (some t) (some x) s e q h = shown-IsAwaited (generic u i) t x s e q h
event-IsAwaited (interaction_ended u i) (some t) (some x) s e q h =
    shown-IsAwaited (interaction_ended u i) t x s e q h
event-IsAwaited (lease_failed u r) (some t) (some x) s e q h =
    shown-IsAwaited (lease_failed u r) t x s e q h
event-IsAwaited other_event (some t) (some x) s e q h = h

load-IsAwaited :
    (shown : Option Snapshot) (s : ThreadActorState) (e : Option Effect)
    → s.snapshot ≡ shown
    → IsAwaited s e
    → IsMoved e (reduce_load_earlier shown s)
load-IsAwaited none s e q h = h
load-IsAwaited (some x) s e q h = elim (Bool-cases (s.refreshing || is_loading s.history_status)) [
  | inl busy ↦ rw busy h
  | inr free ↦ rw free (
      load_from-IsAwaited s.thread_id x.history_cursor x.has_earlier_history s e refl (rw q)
        (ground (arith, free)) h)
]

answer-IsAwaited :
    (b : Bool) (m : Move) (f : Flight)
    → (b ≡ true → IsMoved none m)
    → IsAwaited f.actor f.effect
    → (let g = if b then moved m none else f in IsAwaited g.actor g.effect)
answer-IsAwaited true m f h k = h refl
answer-IsAwaited false m f h k = k

step-IsAwaited :
    (e : Event) (f : Flight)
    → IsAwaited f.actor f.effect
    → IsAwaited (step e f).actor (step e f).effect
unfolding step reduce_thread apply_gateway_event
step-IsAwaited (open_thread t) f h = open-IsAwaited t f.actor.snapshot f.actor f.effect refl h
step-IsAwaited (opened a) f h =
    answer-IsAwaited (is_fetch f.effect) (reduce_opened a f.actor) f
      (λ b. opened-IsAwaited a f.actor f.effect b h) h
step-IsAwaited (failed m) f h =
    answer-IsAwaited (is_fetch f.effect) (reduce_thread f.actor (failed m)) f
      (λ (b : is_fetch f.effect ≡ true). ground (arith, h, b)) h
step-IsAwaited (history_loaded p) f h =
    answer-IsAwaited (is_history f.effect) (reduce_history p f.actor.snapshot f.actor) f
      (λ b. history-IsAwaited p f.actor.snapshot f.actor f.effect refl b h) h
step-IsAwaited (history_failed m) f h =
    answer-IsAwaited (is_history f.effect) (reduce_thread f.actor (history_failed m)) f
      (λ b. history_failed-IsAwaited m f.actor f.effect b h) h
step-IsAwaited (settings_updated t x) f h =
    settings-IsAwaited t x f.actor.snapshot f.actor f.effect refl h
step-IsAwaited load_earlier f h = load-IsAwaited f.actor.snapshot f.actor f.effect refl h
step-IsAwaited (gateway_event g) f h =
    event-IsAwaited g f.actor.thread_id f.actor.snapshot f.actor f.effect refl h
step-IsAwaited reconnects f h = ground (arith, h)
step-IsAwaited close f h = ground (arith, h)

run-IsAwaited :
    (es : List Event) (f : Flight)
    → IsAwaited f.actor f.effect
    → IsAwaited (run es f).actor (run es f).effect
unfolding run
run-IsAwaited [] f h = h
run-IsAwaited (e ∷ es) f h = run-IsAwaited es (step e f) (step-IsAwaited e f h)

initial-IsAwaited : IsAwaited initial_thread none
unfolding initial_thread
initial-IsAwaited = ground arith

-- From the start, while a thread is shown as refreshing, a request for that thread is in flight, or
-- one for that thread's history that the refresh will follow; and while its history is shown as
-- loading, a request for the history of that thread is in flight.
pub run-refreshing :
    (es : List Event)
    → (let f = run es (record { actor = initial_thread; effect = none }) in
        ((not f.actor.refreshing
            || (is_fetch_of f.actor.thread_id f.effect
                || (is_history_of f.actor.thread_id f.effect && f.actor.refresh_pending)))
          ≡ true)
        × ((not (is_loading f.actor.history_status) || is_history_of f.actor.thread_id f.effect)
            ≡ true))
run-refreshing es =
    let h = run-IsAwaited es (record { actor = initial_thread; effect = none }) initial-IsAwaited in
    (h.refreshed, h.loaded)
