-- ===== src/Kernel/Actor.antt =====
-- `Actor` of packages/kernel/src/actor.ts. An effect scope is a number, unused before it is forked; the
-- effects that were started are a log, newest first, each with the generation and the scope that
-- its context is bound to. What the effects do is not modelled: they dispatch events through their
-- context at any later time. The listeners are called between `reduce` and `launch`.
pub mod Stale
use codex_everywhere.Prelude.{
  ℕ, suc, ◌+◌, Bool, true, false, ◌&&◌, ◌||◌, not, List, [], ◌∷◌, Option, none, some, ◌==◌,
  if◌then◌else◌,
}

pub record Transition {ℓ} (State Effect : Type ℓ) : Type ℓ where
  pub state : State
  pub effects : List Effect
  pub preserve_effects : Bool

pub record Context : Type 0 where
  pub generation : ℕ
  pub scope : ℕ

pub record ActorState {ℓ} (State Effect : Type ℓ) : Type ℓ where
  pub state : State
  pub generation : ℕ
  pub effect_scope : Option ℕ
  pub aborted : List ℕ
  pub next_scope : ℕ
  pub closed : Bool
  pub started : List (Context × Effect)

abbrev pub is_nil {ℓ} : {A : Type ℓ} → List A → Bool
is_nil [] = true
is_nil (x ∷ xs) = false

abbrev pub member : ℕ → List ℕ → Bool
member n [] = false
member n (m ∷ ms) = m == n || member n ms

abbrev pub is_scope : ℕ → Option ℕ → Bool
is_scope n none = false
is_scope n (some m) = m == n

-- `#effectScope?.close(…)`: the signal of the scope is aborted.
abbrev pub abort : Option ℕ → List ℕ → List ℕ
abort none aborted = aborted
abort (some n) aborted = n ∷ aborted

abbrev pub log_effects {ℓ} :
    {Effect : Type ℓ} → Context → List Effect → List (Context × Effect) → List (Context × Effect)
log_effects c [] log = log
log_effects c (e ∷ es) log = log_effects c es ((c, e) ∷ log)

module _ {ℓ} {State Effect : Type ℓ} where
  -- `#isGenerationCurrent`.
  abbrev pub is_current : Context → ActorState State Effect → Bool
  is_current c a =
      not a.closed
      && (not (member c.scope a.aborted)
          && (a.generation == c.generation && is_scope c.scope a.effect_scope))

  abbrev pub supersede : ActorState State Effect → ActorState State Effect
  supersede a = record a {
    generation = suc a.generation;
    aborted = abort a.effect_scope a.aborted;
    effect_scope = none;
  }

  -- The first half of `dispatch`: the generation and the state.
  abbrev pub reduce : Transition State Effect → ActorState State Effect → ActorState State Effect
  reduce t a = record (if t.preserve_effects then a else supersede a) { state = t.state }

  -- The second half: the effects start in a scope of their own, for the generation that the first half
  -- ended with.
  abbrev pub launch_in : ℕ → List Effect → ActorState State Effect → ActorState State Effect
  launch_in generation [] a = a
  launch_in generation (e ∷ es) a = record a {
    effect_scope = some a.next_scope;
    next_scope = suc a.next_scope;
    started =
        log_effects (record { generation = generation; scope = a.next_scope }) (e ∷ es) a.started;
  }

  abbrev pub is_contradictory : Transition State Effect → Bool
  is_contradictory t = t.preserve_effects && not (is_nil t.effects)

  abbrev pub apply : Transition State Effect → ActorState State Effect → ActorState State Effect
  apply t a = let b = reduce t a in launch_in b.generation t.effects b

  unfoldable pub close : ActorState State Effect → ActorState State Effect
  close a = if a.closed then a else record a {
    closed = true;
    generation = suc a.generation;
    aborted = abort a.effect_scope a.aborted;
  }

abbrev pub through {ℓ} :
    {State Effect : Type ℓ}
    → Option (ActorState State Effect)
    → Option (ActorState State Effect × Bool)
through none = none
through (some b) = some (b, true)

module _ {ℓ} {State Event Effect : Type ℓ} (reducer : State → Event → Transition State Effect) where
  -- `dispatch`; `none` is an error, with nothing changed.
  unfoldable pub dispatch : Event → ActorState State Effect → Option (ActorState State Effect)
  dispatch event a =
      if a.closed
      then none
      else (if is_contradictory (reducer a.state event)
          then none
          else some (apply (reducer a.state event) a))

  -- `context.dispatch`; `none` is an error, and a context that is not current changes nothing.
  unfoldable pub dispatch_from :
      Context → Event → ActorState State Effect → Option (ActorState State Effect × Bool)
  unfolding dispatch
  dispatch_from c event a = if is_current c a then through (dispatch event a) else some (a, false)
