-- ===== src/Web/SideChat/Flight.antt =====
-- The control actor of apps/web/src/v4/actors/side-chat-runtime.ts and the request that is in
-- flight.
use codex_everywhere.Prelude.{
  ◌≡◌, Bool, true, false, List, [], ◌∷◌, Option, none, some, String, if◌then◌else◌,
}
use codex_everywhere.Web.SideChat.{
  SideChatState, Event, select, show, hide, start, delete, abandon, reload, consumed, unknown,
  Effect, reads, starts, deletes, abandons, Move, initial_state, busy_status, is_text,
  reduce_side_chat, Answer, run_effect,
}

pub record Flight : Type 0 where
  pub actor : SideChatState
  pub effect : Option Effect

-- An event of the page or of the Gateway; what a mutation in flight reports; the end of the request in flight.
pub data Step : Type 0 where
  selects : String → Step
  shows hides asks_delete asks_abandon reloads consumes : Step
  asks : Option String → Step
  reports : String → Step
  ends : Answer → Step

-- The effects that a transition starts take the place of those in flight, unless these are preserved.
abbrev pub in_flight : List Effect → Bool → Option Effect → Option Effect
in_flight (e ∷ es) preserve old = some e
in_flight [] preserve old = if preserve then old else none

abbrev pub moved : Move → Option Effect → Flight
moved m old = record { actor = m.state; effect = in_flight m.effects m.preserve_effects old }

abbrev pub is_mutation : Option Effect → Bool
is_mutation none = false
is_mutation (some (reads p)) = false
is_mutation (some (starts p)) = true
is_mutation (some (deletes p)) = true
is_mutation (some (abandons p k)) = true

abbrev pub ended : Option Event → SideChatState → Flight
ended none s = record { actor = s; effect = none }
ended (some e) s = moved (reduce_side_chat s e) none

-- The effect that is current has not been aborted.
abbrev pub end_of : Answer → Option Effect → SideChatState → Flight
end_of a none s = record { actor = s; effect = none }
end_of a (some e) s = ended (run_effect e false a) s

abbrev pub asked : Event → Flight → Flight
asked e f = moved (reduce_side_chat f.actor e) f.effect

unfoldable pub step : Step → Flight → Flight
unfolding reduce_side_chat run_effect
step (selects p) f = asked (select p) f
step shows f = asked show f
step hides f = asked hide f
step asks_delete f = asked delete f
step asks_abandon f = asked abandon f
step reloads f = asked reload f
step consumes f = asked consumed f
step (asks q) f = asked (start q) f
step (reports k) f = if is_mutation f.effect then asked (unknown k) f else f
step (ends a) f = end_of a f.effect f.actor

unfoldable pub run : List Step → Flight → Flight
unfolding step
run [] f = f
run (e ∷ es) f = run es (step e f)

unfoldable pub at_rest : Flight
unfolding initial_state
at_rest = record { actor = initial_state; effect = none }

abbrev pub parent_of : Effect → String
parent_of (reads p) = p
parent_of (starts p) = p
parent_of (deletes p) = p
parent_of (abandons p k) = p

abbrev pub is_for : Option String → Option Effect → Bool
is_for parent none = true
is_for parent (some e) = is_text (parent_of e) parent

record IsHeld (s : SideChatState) (e : Option Effect) : Type 0 where
  busy : busy_status s.status ≡ is_mutation e
  matching : is_for s.parent_thread_id e ≡ true

abbrev IsMoved : Option Effect → Move → Type 0
IsMoved old m = IsHeld m.state (in_flight m.effects m.preserve_effects old)

abbrev IsHeldIn : Flight → Type 0
IsHeldIn f = IsHeld f.actor f.effect

-- The request in flight does not end.
abbrev pub Goes : Step → Type 0
Goes (ends a) = false ≡ true
Goes _ = Unit

-- While a mutation is in flight.
record IsKept (e : Option Effect) (f : Flight) : Type 0 where
  pub same_effect : f.effect ≡ e
  pub still_busy : busy_status f.actor.status ≡ true

abbrev KeptBy : Option Effect → Move → Type 0
KeptBy e m = IsKept e (moved m e)
