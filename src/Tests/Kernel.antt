-- ===== src/Tests/Kernel.antt =====
-- A bus with two events; and the theorems on it.
use codex_everywhere.Prelude.{◌≡◌, refl, [], ◌∷◌, ◌==◌, if◌then◌else◌, arith}
use codex_everywhere.Table.{find, modified}
use codex_everywhere.Kernel.EventBus.{Bus, Subscription, unsubscribe, called}
use codex_everywhere.Kernel.EventBus.Subscriptions.{IsSound, called-unsubscribe_again}

abbrev new_bus : Bus
new_bus = record { listeners = []; sets = λ s. []; next_set = 0 }

new_bus-IsSound : IsSound new_bus
unfolding find modified
new_bus-IsSound = record {
  keyed = λ k. omega arith;
  in_use = λ e x q. cc q;
  apart = λ e f x y q r n. cc q;
}

abbrev first : Subscription
first = record { event = "x"; set = 0; listener = 7 }

abbrev bus : Bus
bus = record {
  listeners = record { event = "x"; set = 1 } ∷ [];
  sets = λ s. if s == 1 then 8 ∷ [] else [];
  next_set = 2;
}

bus-IsSound : IsSound bus
unfolding find modified
bus-IsSound = record {
  keyed = λ k. ground arith;
  in_use = λ e x q. ground (arith, q);
  apart = λ e f x y q r n. ground (arith, q, r, n);
}

called-unsubscribe_again_example : called "x" (unsubscribe first bus) ≡ []
called-unsubscribe_again_example = called-unsubscribe_again first bus bus-IsSound refl
