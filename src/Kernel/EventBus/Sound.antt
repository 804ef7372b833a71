-- ===== src/Kernel/EventBus/Sound.antt =====
-- The Sets of packages/kernel/src/typed-event-bus.ts, over any use of the bus.
use codex_everywhere.Prelude.{
  ℕ, ◌≡◌, refl, List, [], ◌∷◌, Option, none, some, String, if_either, arith, text_discrete,
}
use codex_everywhere.Table.{delete, at, lookup, find, modified}
use codex_everywhere.Table.Laws.{lookup-delete, modified-delete-le, modified-absent_key}
use codex_everywhere.Kernel.EventBus.{
  Binding, Bus, Subscription, event_of, set_delete, is_empty_set, add_to, with_set, on_found, on,
  unsubscribe, clear, write_set,
}
use codex_everywhere.Kernel.EventBus.Subscriptions.{IsSound}

module _ (b : Bus) (h : IsSound b) where
  sets-IsSound : (sets : ℕ → List ℕ) → IsSound (record b { sets = sets })
  sets-IsSound sets = record { keyed = h.keyed; in_use = h.in_use; apart = h.apart }

  fewer-IsSound :
      (event : String) → IsSound (record b { listeners = delete (at event_of event) b.listeners })
  fewer-IsSound event = record {
    keyed = λ k.
        omega (arith, h.keyed k, modified-delete-le event_of k (at event_of event) b.listeners);
    in_use = λ e x q. h.in_use e x (was e x q);
    apart = λ e f x y q r. h.apart e f x y (was e x q) (was f y r);
  }
    where
      was :
          (e : String) (x : Binding)
          → lookup event_of e (delete (at event_of event) b.listeners) ≡ some x
          → lookup event_of e b.listeners ≡ some x
      was e x q =
          ground (arith, q, lookup-delete event_of e (at event_of event) b.listeners (h.keyed e))

  with_set-IsSound :
      (event : String) → lookup event_of event b.listeners ≡ none → IsSound (with_set event b)
  unfolding find modified
  with_set-IsSound event free = record {
    keyed = λ k. elim (text_discrete event k) [
      | yes p ↦ ground (arith, modified-absent_key event_of event b.listeners free)
      | no n ↦ ground (arith, h.keyed k)
    ];
    in_use = λ e x q. ground (arith, q, h.in_use e x);
    apart = λ e f x y q r n. ground (arith, q, r, n, h.in_use e x, h.in_use f y, h.apart e f x y);
  }

  on-IsSound : (event : String) (l : ℕ) → IsSound (on event l b).0
  unfolding on
  on-IsSound event l = go (lookup event_of event b.listeners) refl
    where
      go :
          (m : Option Binding)
          → lookup event_of event b.listeners ≡ m
          → IsSound (on_found event l b m).0
      go none q =
          let s = with_set-IsSound event q in
          record { keyed = s.keyed; in_use = s.in_use; apart = s.apart }
      go (some x) q = sets-IsSound (add_to event l b x.set).0.sets

  unsubscribe-IsSound : (u : Subscription) → IsSound (unsubscribe u b)
  unfolding unsubscribe
  unsubscribe-IsSound u =
      if_either IsSound (is_empty_set (set_delete u.listener (b.sets u.set)))
        (let s = fewer-IsSound u.event in
          record { keyed = s.keyed; in_use = s.in_use; apart = s.apart })
        (sets-IsSound (write_set u.set (set_delete u.listener (b.sets u.set)) b.sets))

pub data Step : Type 0 where
  subscribes : String → ℕ → Step
  unsubscribes : Subscription → Step
  clears : Step

unfoldable pub step : Step → Bus → Bus
step (subscribes event l) b = (on event l b).0
step (unsubscribes u) b = unsubscribe u b
step clears b = clear b

unfoldable pub run : List Step → Bus → Bus
unfolding step
run [] b = b
run (s ∷ ss) b = run ss (step s b)

step-IsSound : (s : Step) (b : Bus) → IsSound b → IsSound (step s b)
unfolding step clear find modified
step-IsSound (subscribes event l) b h = on-IsSound b h event l
step-IsSound (unsubscribes u) b h = unsubscribe-IsSound b h u
step-IsSound clears b h = record {
  keyed = λ k. omega arith;
  in_use = λ e x q. cc q;
  apart = λ e f x y q r n. cc q;
}

-- Over any subscriptions, calls of any functions that unsubscribe and clearings, every event has one Set
-- at most, and those of two events differ.
pub run-IsSound : (ss : List Step) (b : Bus) → IsSound b → IsSound (run ss b)
unfolding run
run-IsSound [] b h = h
run-IsSound (s ∷ ss) b h = run-IsSound ss (step s b) (step-IsSound s b h)
