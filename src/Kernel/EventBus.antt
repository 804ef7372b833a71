-- ===== src/Kernel/EventBus.antt =====
-- `TypedEventBus` of packages/kernel/src/typed-event-bus.ts. A listener is a number. The Map of the bus
-- holds, for an event, a Set that is shared with the functions that unsubscribe: Sets are a store by
-- number, where a new one is unused, so that a Set that has left the Map is still there.
pub mod Subscriptions
pub mod Sound
use codex_everywhere.Prelude.{
  ℕ, suc, Bool, true, false, ◌||◌, List, [], ◌∷◌, ◌++◌, Option, none, some, String, same, ◌==◌,
  length, if◌then◌else◌,
}
use codex_everywhere.Table.{delete, at, lookup}

pub record Binding : Type 0 where
  pub event : String
  pub set : ℕ

pub record Bus : Type 0 where
  pub listeners : List Binding
  pub sets : ℕ → List ℕ
  pub next_set : ℕ

-- The function that `on` returns keeps the Set and the listener.
pub record Subscription : Type 0 where
  pub event : String
  pub set : ℕ
  pub listener : ℕ

abbrev pub event_of : Binding → String
event_of b = b.event

unfoldable pub contains : ℕ → List ℕ → Bool
contains l [] = false
contains l (m ∷ ms) = m == l || contains l ms

-- `Set.add` and `Set.delete`.
unfoldable pub set_add : ℕ → List ℕ → List ℕ
unfolding contains
set_add l ms = if contains l ms then ms else ms ++ l ∷ []

unfoldable pub set_delete : ℕ → List ℕ → List ℕ
set_delete l [] = []
set_delete l (m ∷ ms) = let rest = set_delete l ms in if m == l then rest else m ∷ rest

abbrev pub write_set : ℕ → List ℕ → (ℕ → List ℕ) → ℕ → List ℕ
write_set s ms sets t = if s == t then ms else sets t

abbrev pub is_empty_set : List ℕ → Bool
is_empty_set [] = true
is_empty_set (m ∷ ms) = false

abbrev pub add_to : String → ℕ → Bus → ℕ → Bus × Subscription
add_to event l b s = (
  record b { sets = write_set s (set_add l (b.sets s)) b.sets },
  record { event = event; set = s; listener = l },
)

abbrev pub with_set : String → Bus → Bus
with_set event b = record {
  listeners = record { event = event; set = b.next_set } ∷ b.listeners;
  sets = write_set b.next_set [] b.sets;
  next_set = suc b.next_set;
}

abbrev pub on_found : String → ℕ → Bus → Option Binding → Bus × Subscription
on_found event l b (some x) = add_to event l b x.set
on_found event l b none = add_to event l (with_set event b) b.next_set

unfoldable pub on : String → ℕ → Bus → Bus × Subscription
unfolding set_add
on event l b = on_found event l b (lookup event_of event b.listeners)

-- The function that `on` returned is called.
unfoldable pub unsubscribe : Subscription → Bus → Bus
unfolding set_delete
unsubscribe u b =
    let rest = set_delete u.listener (b.sets u.set) in
    let next : Bus = record b { sets = write_set u.set rest b.sets } in
    if is_empty_set rest
    then record next { listeners = delete (at event_of u.event) b.listeners }
    else next

abbrev pub set_of : Bus → Option Binding → List ℕ
set_of b none = []
set_of b (some x) = b.sets x.set

-- The listeners that `emit` calls, in order. What one of them throws does not keep the rest from being
-- called.
unfoldable pub called : String → Bus → List ℕ
called event b = set_of b (lookup event_of event b.listeners)

unfoldable pub listener_count : String → Bus → ℕ
unfolding called
listener_count event b = length (called event b)

unfoldable pub clear : Bus → Bus
clear b = record b { listeners = [] }
