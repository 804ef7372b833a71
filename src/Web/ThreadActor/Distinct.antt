-- ===== src/Web/ThreadActor/Distinct.antt =====
-- The items that apps/web/src/v4/actors/thread-actor.ts shows.
use codex_everywhere.Prelude.{
  ◌≡◌, refl, Bool, true, false, ◌||◌, not, List, [], ◌∷◌, ◌++◌, Option, none, some, String, same,
  ltb, subst, if_either, All, arith,
}
use codex_everywhere.Web.Timeline.{
  Item, Snapshot, Settings, HistoryPage, has, ids, keep, is_nil, before_known, with_transient,
  is_transient_generic_item, has_overlap, merge_timeline_pages, prepend_authoritative_history_page,
  replace_authoritative_timeline_window, merge_authoritative_timeline_window,
}
use codex_everywhere.Web.Timeline.Reference.{IsDistinct, merge_timeline_pages-keep_last}
use codex_everywhere.Web.ThreadActor.{
  ThreadActorState, GatewayEvent, Event, open_thread, opened, settings_updated, load_earlier,
  history_loaded, history_failed, gateway_event, reconnects, close, failed, Move, opened_snapshot,
  is_loading, is_text, reduce_open, reduce_opened, reduce_settings, reduce_load_earlier, load_from,
  reduce_history, then_refresh, apply_gateway_event, apply_to, apply_shown, context_usage_changed,
  state_changed, compacted, interaction_created, generic, interaction_ended, lease_failed,
  other_event, reduce_thread, initial_thread,
}

merged : (e l : List Item) → IsDistinct e → IsDistinct (merge_timeline_pages e l)
merged e l d = (merge_timeline_pages-keep_last e l d).1

before-has :
    (k : String) (known : List String) (xs : List Item)
    → has k (ids xs) ≡ false
    → has k (ids (before_known known xs)) ≡ false
unfolding before_known has ids
before-has k known [] h = refl
before-has k known (x ∷ xs) h = ground (arith, h, before-has k known xs)

before-IsDistinct :
    (known : List String) (xs : List Item) → IsDistinct xs → IsDistinct (before_known known xs)
unfolding before_known
before-IsDistinct known [] d = tt
before-IsDistinct known (x ∷ xs) d =
    if_either IsDistinct (has x.id known) tt
      (before-has x.id known xs d.0, before-IsDistinct known xs d.1)

transient-IsDistinct :
    (a : Snapshot) (ts : List Item) → IsDistinct a.items → IsDistinct (with_transient a ts).items
transient-IsDistinct a [] d = d
transient-IsDistinct a (t ∷ ts) d = merged a.items (t ∷ ts) d

abbrev AreDistinct : Snapshot → Type 0
AreDistinct s = IsDistinct s.items

replace-IsDistinct :
    (c : Option Snapshot) (a : Snapshot)
    → IsDistinct a.items
    → AreDistinct (replace_authoritative_timeline_window c a)
unfolding replace_authoritative_timeline_window
replace-IsDistinct none a d = d
replace-IsDistinct (some c) a d =
    if_either AreDistinct (same c.thread_id a.thread_id)
      (transient-IsDistinct a (keep is_transient_generic_item c.items) d) d

-- Of the snapshot that is shown, if one is.
abbrev pub ShowsDistinct : Option Snapshot → Type 0
ShowsDistinct none = Unit
ShowsDistinct (some s) = IsDistinct s.items

window-IsDistinct :
    (c : Option Snapshot) (a : Snapshot) (loaded : List String)
    → ShowsDistinct c
    → IsDistinct a.items
    → AreDistinct (merge_authoritative_timeline_window c a loaded)
unfolding merge_authoritative_timeline_window
window-IsDistinct none a loaded h d = d
window-IsDistinct (some c) a loaded h d =
    if_either AreDistinct (not (same c.thread_id a.thread_id)) d (
      if_either AreDistinct (not (has_overlap c.items a.items) || is_nil loaded)
        (replace-IsDistinct (some c) a d)
        (merged (before_known (ids a.items) c.items)
          (a.items ++ keep is_transient_generic_item c.items)
          (before-IsDistinct (ids a.items) c.items h)))

-- What the Gateway answers shows no item twice.
abbrev pub BringsDistinct : Event → Type 0
BringsDistinct (opened a) = IsDistinct a.items
BringsDistinct (history_loaded p) = IsDistinct p.items
BringsDistinct _ = Unit

abbrev Shows : ThreadActorState → Type 0
Shows s = ShowsDistinct s.snapshot

-- The snapshot of the state after, whether a refresh follows or not.
either-Shows :
    (b : Bool) (t : Option String) (s : ThreadActorState)
    → Shows s
    → Shows (then_refresh b t s).state
either-Shows true none s h = h
either-Shows true (some t) s h = h
either-Shows false none s h = h
either-Shows false (some t) s h = h

open-Shows :
    (t : String) (c : Option Snapshot) (s : ThreadActorState)
    → Shows s
    → Shows (reduce_open t c s).state
open-Shows t none s h = tt
open-Shows t (some c) s h =
    if_either (λ (m : Move). Shows m.state) (is_text t s.thread_id)
      (if_either (λ (m : Move). Shows m.state) (is_loading s.history_status) h
        (if_either (λ (m : Move). Shows m.state) s.refreshing h h))
      tt

opened-Shows :
    (a : Snapshot) (s : ThreadActorState)
    → IsDistinct a.items
    → Shows s
    → Shows (reduce_opened a s).state
unfolding reduce_opened
opened-Shows a s d h = if_either (λ (m : Move). Shows m.state) s.refresh_pending shown shown
  where
    shown : AreDistinct (opened_snapshot a s)
    shown =
        if_either AreDistinct s.replace_history_on_refresh (replace-IsDistinct s.snapshot a d)
          (window-IsDistinct s.snapshot a s.loaded_history_item_ids h d)

settings-Shows :
    (t : String) (x : Settings) (c : Option Snapshot) (s : ThreadActorState)
    → s.snapshot ≡ c
    → Shows s
    → Shows (reduce_settings t x c s).state
settings-Shows t x none s e h = h
settings-Shows t x (some c) s e h =
    if_either (λ (m : Move). Shows m.state)
      (not (is_text t s.thread_id) || ltb x.revision c.settings.revision) h
      (subst ShowsDistinct e h)

load_from-Shows :
    (t c : Option String) (b : Bool) (s : ThreadActorState)
    → Shows s
    → Shows (load_from t c b s).state
load_from-Shows none c b s h = h
load_from-Shows (some t) none b s h = h
load_from-Shows (some t) (some c) false s h = h
load_from-Shows (some t) (some c) true s h = h

load-Shows :
    (c : Option Snapshot) (s : ThreadActorState) → Shows s → Shows (reduce_load_earlier c s).state
load-Shows none s h = h
load-Shows (some c) s h =
    if_either (λ (m : Move). Shows m.state) (s.refreshing || is_loading s.history_status) h
      (load_from-Shows s.thread_id c.history_cursor c.has_earlier_history s h)

history-Shows :
    (p : HistoryPage) (c : Option Snapshot) (s : ThreadActorState)
    → IsDistinct p.items
    → Shows s
    → Shows (reduce_history p c s).state
unfolding prepend_authoritative_history_page
history-Shows p none s d h = h
history-Shows p (some c) s d h =
    either-Shows s.refresh_pending s.thread_id _ (merged p.items c.items d)

shown-Shows :
    (g : GatewayEvent) (t : String) (c : Snapshot) (s : ThreadActorState)
    → IsDistinct c.items
    → Shows s
    → Shows (apply_shown g t c s)
shown-Shows (context_usage_changed u v) t c s d h = h
shown-Shows (state_changed u v) t c s d h = if_either Shows (same u t) d h
shown-Shows (compacted u) t c s d h = if_either Shows (same u t) h h
shown-Shows (interaction_created i) t c s d h = if_either Shows (same i.thread_id t) d h
shown-Shows (generic u i) t c s d h = if_either Shows (same u t) (merged c.items (i ∷ []) d) h
shown-Shows (interaction_ended u i) t c s d h = if_either Shows (same u t) d h
shown-Shows (lease_failed u r) t c s d h = if_either Shows (same u t) h h
shown-Shows other_event t c s d h = h

event-Shows :
    (g : GatewayEvent) (t : Option String) (c : Option Snapshot) (s : ThreadActorState)
    → s.snapshot ≡ c
    → Shows s
    → Shows (apply_to g t c s)
event-Shows g none c s e h = h
event-Shows (context_usage_changed u v) (some t) c s e h = if_either Shows (same u t) h h
event-Shows (state_changed u v) (some t) none s e h = h
event-Shows (compacted u) (some t) none s e h = h
event-Shows (interaction_created i) (some t) none s e h = h
event-Shows (generic u i) (some t) none s e h = h
event-Shows (interaction_ended u i) (some t) none s e h = h
event-Shows (lease_failed u r) (some t) none s e h = h
event-Shows other_event (some t) none s e h = h
event-Shows (state_changed u v) (some t) (some c) s e h =
    shown-Shows (state_changed u v) t c s (subst ShowsDistinct e h) h
event-Shows (compacted u) (some t) (some c) s e h =
    shown-Shows (compacted u) t c s (subst ShowsDistinct e h) h
event-Shows (interaction_created i) (some t) (some c) s e h =
    shown-Shows (interaction_created i) t c s (subst ShowsDistinct e h) h
event-Shows (generic u i) (some t) (some c) s e h =
    shown-Shows (generic u i) t c s (subst ShowsDistinct e h) h
event-Shows (interaction_ended u i) (some t) (some c) s e h =
    shown-Shows (interaction_ended u i) t c s (subst ShowsDistinct e h) h
event-Shows (lease_failed u r) (some t) (some c) s e h =
    shown-Shows (lease_failed u r) t c s (subst ShowsDistinct e h) h
event-Shows other_event (some t) (some c) s e h = h

reduce-Shows :
    (s : ThreadActorState) (e : Event)
    → BringsDistinct e
    → Shows s
    → Shows (reduce_thread s e).state
unfolding reduce_thread apply_gateway_event
reduce-Shows s (open_thread t) b h = open-Shows t s.snapshot s h
reduce-Shows s (opened a) b h = opened-Shows a s b h
reduce-Shows s (settings_updated t x) b h = settings-Shows t x s.snapshot s refl h
reduce-Shows s load_earlier b h = load-Shows s.snapshot s h
reduce-Shows s (history_loaded p) b h = history-Shows p s.snapshot s b h
reduce-Shows s (history_failed m) b h = either-Shows s.refresh_pending s.thread_id _ h
reduce-Shows s (gateway_event g) b h = event-Shows g s.thread_id s.snapshot s refl h
reduce-Shows s reconnects b h = h
reduce-Shows s close b h = tt
reduce-Shows s (failed m) b h = h

unfoldable pub reduced : ThreadActorState → List Event → ThreadActorState
unfolding reduce_thread
reduced s [] = s
reduced s (e ∷ es) = reduced (reduce_thread s e).state es

reduced-Shows :
    (es : List Event) (s : ThreadActorState)
    → All BringsDistinct es
    → Shows s
    → Shows (reduced s es)
unfolding reduced
reduced-Shows [] s b h = h
reduced-Shows (e ∷ es) s b h =
    reduced-Shows es (reduce_thread s e).state b.1 (reduce-Shows s e b.0 h)

-- From the start, where no answer of the Gateway has an item twice, the timeline that is shown has no item twice,
-- whatever is opened, refreshed, loaded, compacted or reported.
pub reduced-ShowsDistinct :
    (es : List Event) → All BringsDistinct es → ShowsDistinct (reduced initial_thread es).snapshot
unfolding initial_thread
reduced-ShowsDistinct es b = reduced-Shows es initial_thread b tt
