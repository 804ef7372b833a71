-- ===== src/Kernel/EventBus/Subscriptions.antt =====
-- What subscribing and unsubscribing change of the listeners that are called.
use codex_everywhere.Prelude.{
  ℕ, ◌<◌, ◌≡◌, ◌≢◌, refl, false, List, [], ◌∷◌, ◌++◌, Option, none, some, String, same,
  if◌then◌else◌, arith, text_discrete, Option-cases, inl, inr,
}
use codex_everywhere.Table.{delete, at, lookup, find}
use codex_everywhere.Table.Laws.{IsKeyed, drop_row, lookup-delete, at-lookup}
use codex_everywhere.Kernel.EventBus.{
  Binding, Bus, Subscription, event_of, contains, set_add, set_delete, add_to, with_set, on_found,
  on, unsubscribe, called,
}

-- Every event has a Set of its own, and those in the Map are in use.
pub record IsSound (b : Bus) : Type 0 where
  pub keyed : IsKeyed event_of b.listeners
  pub in_use :
      (e : String) (x : Binding) → lookup event_of e b.listeners ≡ some x → x.set < b.next_set
  pub apart :
      (e f : String) (x y : Binding)
      → lookup event_of e b.listeners ≡ some x
      → lookup event_of f b.listeners ≡ some y
      → e ≢ f
      → x.set ≢ y.set

module _ (event other : String) (l : ℕ) (b : Bus) (h : IsSound b) where
  abbrev after : List ℕ
  after = if same event other then called event b ++ l ∷ [] else called other b

  on_known :
      (x : Binding)
      → lookup event_of event b.listeners ≡ some x
      → contains l (called event b) ≡ false
      → called other (add_to event l b x.set).0 ≡ after
  unfolding called set_add
  on_known x q new = elim (text_discrete event other) [
    | yes p ↦ same_event other p
    | no n ↦ elim (Option-cases (lookup event_of other b.listeners)) [
      | inl r ↦ ground (arith, r, n)
      | inr r ↦ ground (arith, r.1, n, h.apart event other x r.0 q r.1 n)
    ]
  ]
    where
      same_event :
          (o : String)
          → event ≡ o
          → called o (add_to event l b x.set).0
            ≡ (if same event o then called event b ++ l ∷ [] else called o b)
      same_event o p = ground (arith, q, new, p)

  on_new :
      lookup event_of event b.listeners ≡ none
      → called other (add_to event l (with_set event b) b.next_set).0 ≡ after
  unfolding called set_add contains find
  on_new q = elim (text_discrete event other) [
    | yes p ↦ ground (arith, q, p)
    | no n ↦ elim (Option-cases (lookup event_of other b.listeners)) [
      | inl r ↦ ground (arith, r, n)
      | inr r ↦ ground (arith, r.1, n, h.in_use other r.0 r.1)
    ]
  ]

  -- Subscribing puts a listener that is not subscribed last among those of its event, and changes
  -- nothing for another event.
  pub called-on :
      contains l (called event b) ≡ false
      → called other (on event l b).0
        ≡ (if same event other then called event b ++ l ∷ [] else called other b)
  unfolding on
  called-on new = go (lookup event_of event b.listeners) refl
    where
      go :
          (m : Option Binding)
          → lookup event_of event b.listeners ≡ m
          → called other (on_found event l b m).0 ≡ after
      go none q = on_new q
      go (some x) q = on_known x q new

module _ (u : Subscription) (other : String) (b : Bus) (h : IsSound b) where
  abbrev rest : List ℕ
  rest = set_delete u.listener (b.sets u.set)

  dropped :
      lookup event_of other (delete (at event_of u.event) b.listeners)
      ≡ drop_row (at event_of u.event) (lookup event_of other b.listeners)
  dropped = lookup-delete event_of other (at event_of u.event) b.listeners (h.keyed other)

  -- Unsubscribing takes the listener away from its event, and changes nothing for another event, as long
  -- as its Set is the one of the event.
  pub called-unsubscribe :
      (x : Binding)
      → lookup event_of u.event b.listeners ≡ some x
      → x.set ≡ u.set
      → called other (unsubscribe u b)
        ≡ (if same u.event other then set_delete u.listener (called u.event b) else called other b)
  unfolding called unsubscribe
  called-unsubscribe x q s = elim (text_discrete u.event other) [
    | yes p ↦ ground (arith, q, s, p, dropped)
    | no n ↦ elim (Option-cases (lookup event_of other b.listeners)) [
      | inl r ↦ ground (arith, r, n, dropped, s)
      | inr r ↦ ground (
        arith,
        r.1,
        n,
        dropped,
        s,
        h.apart u.event other x r.0 q r.1 n,
        at-lookup event_of other b.listeners,
      )
    ]
  ]

-- A function that unsubscribes, called when its own Set is empty already, drops every listener of the
-- event, also those that subscribed since in a new Set.
pub called-unsubscribe_again :
    (u : Subscription) (b : Bus)
    → IsSound b
    → b.sets u.set ≡ []
    → called u.event (unsubscribe u b) ≡ []
unfolding called unsubscribe set_delete
called-unsubscribe_again u b h e =
    ground (arith, e, dropped u u.event b h, at-lookup event_of u.event b.listeners)
