-- ===== src/Kernel/Actor/Stale.antt =====
-- The generations of packages/kernel/src/actor.ts, and the effects that were superseded.
use codex_everywhere.Prelude.{
  ℕ, suc, ◌≤◌, ◌<◌, ◌≡◌, refl, Bool, false, List, [], ◌∷◌, Option, none, some, if◌then◌else◌,
  if_either, arith,
}
use codex_everywhere.Kernel.Actor.{
  Transition, Context, ActorState, is_current, reduce, launch_in, is_contradictory, apply, dispatch,
  through, dispatch_from, close,
}

pub data Step {ℓ} (Event : Type ℓ) : Type ℓ where
  dispatches : Event → Step Event
  answers : Context → Event → Step Event
  closes : Step Event

abbrev pub or_same {ℓ} : {A : Type ℓ} → A → Option A → A
or_same a none = a
or_same a (some b) = b

abbrev pub or_left {ℓ} : {A : Type ℓ} → A → Option (A × Bool) → A
or_left a none = a
or_left a (some (b, changed)) = b

module _ {ℓ} {State Effect : Type ℓ} where
  launch-generation :
      (n : ℕ) (es : List Effect) (a : ActorState State Effect)
      → (launch_in n es a).generation ≡ a.generation
  launch-generation n [] a = refl
  launch-generation n (e ∷ es) a = refl

  reduce-generation :
      (t : Transition State Effect) (a : ActorState State Effect)
      → a.generation ≤ (reduce t a).generation
  reduce-generation t a = ground arith

module _ {ℓ} {State Event Effect : Type ℓ} (reducer : State → Event → Transition State Effect) where
  -- The steps of an actor; a step that fails changes nothing.
  unfoldable pub step : Step Event → ActorState State Effect → ActorState State Effect
  unfolding dispatch dispatch_from close
  step (dispatches e) a = or_same a (dispatch reducer e a)
  step (answers c e) a = or_left a (dispatch_from reducer c e a)
  step closes a = close a

  unfoldable pub run : List (Step Event) → ActorState State Effect → ActorState State Effect
  unfolding step
  run [] a = a
  run (s ∷ ss) a = run ss (step s a)

  AtLeast : ℕ → ActorState State Effect → Type 0
  AtLeast n a = n ≤ a.generation

  dispatched-AtLeast :
      (n : ℕ) (e : Event) (a : ActorState State Effect)
      → n ≤ a.generation
      → n ≤ (or_same a (dispatch reducer e a)).generation
  unfolding dispatch
  dispatched-AtLeast n e a h = go (reducer a.state e)
    where
      applied : (t : Transition State Effect) → n ≤ (apply t a).generation
      applied t = omega (
        arith,
        h,
        reduce-generation t a,
        launch-generation (reduce t a).generation t.effects (reduce t a),
      )

      go :
          (t : Transition State Effect)
          → n
            ≤ (or_same a (
                if a.closed
                then none
                else (if is_contradictory t then none else some (apply t a)))).generation
      go t =
          if_either (λ (o : Option (ActorState State Effect)). n ≤ (or_same a o).generation)
            a.closed h
            (if_either (λ (o : Option (ActorState State Effect)). n ≤ (or_same a o).generation)
              (is_contradictory t) h (applied t))

  step-AtLeast :
      (n : ℕ) (s : Step Event) (a : ActorState State Effect)
      → n ≤ a.generation
      → n ≤ (step s a).generation
  unfolding step dispatch_from close
  step-AtLeast n (dispatches e) a h = dispatched-AtLeast n e a h
  step-AtLeast n (answers c e) a h =
      if_either (λ (o : Option (ActorState State Effect × Bool)). n ≤ (or_left a o).generation)
        (is_current c a) (go (dispatch reducer e a) (dispatched-AtLeast n e a h)) h
    where
      go :
          (o : Option (ActorState State Effect))
          → n ≤ (or_same a o).generation
          → n ≤ (or_left a (through o)).generation
      go none g = g
      go (some b) g = g
  step-AtLeast n closes a h =
      if_either (λ (b : ActorState State Effect). n ≤ b.generation) a.closed h (omega (arith, h))

  run-AtLeast :
      (n : ℕ) (ss : List (Step Event)) (a : ActorState State Effect)
      → n ≤ a.generation
      → n ≤ (run ss a).generation
  unfolding run
  run-AtLeast n [] a h = h
  run-AtLeast n (s ∷ ss) a h = run-AtLeast n ss (step s a) (step-AtLeast n s a h)

  -- An effect of an older generation changes nothing, whatever was dispatched since.
  inert :
      (c : Context) (e : Event) (a : ActorState State Effect)
      → c.generation < a.generation
      → dispatch_from reducer c e a ≡ some (a, false)
  unfolding dispatch_from
  inert c e a lt = ground (arith, lt)

  raised :
      (a : ActorState State Effect) (e : Event) (c : Context)
      → a.closed ≡ false
      → (reducer a.state e).preserve_effects ≡ false
      → c.generation ≤ a.generation
      → c.generation < (step (dispatches e) a).generation
  unfolding step dispatch
  raised a e c open_now changes older = go (reducer a.state e) changes
    where
      go :
          (t : Transition State Effect)
          → t.preserve_effects ≡ false
          → c.generation
            < (or_same a (
                if a.closed
                then none
                else (if is_contradictory t then none else some (apply t a)))).generation
      go t p = ground (
        arith,
        p,
        older,
        open_now,
        launch-generation (reduce t a).generation t.effects (reduce t a),
      )

  -- Once an open actor takes an event that does not preserve the effects, what any effect of its
  -- generation or an older one dispatches is dropped and changes nothing, after any further steps.
  pub superseded-inert :
      (a : ActorState State Effect) (e : Event) (c : Context) (ss : List (Step Event))
      (late : Event)
      → a.closed ≡ false
      → (reducer a.state e).preserve_effects ≡ false
      → c.generation ≤ a.generation
      → let later = run ss (step (dispatches e) a) in
        dispatch_from reducer c late later ≡ some (later, false)
  superseded-inert a e c ss late open_now changes older =
      inert c late (run ss (step (dispatches e) a)) (
        run-AtLeast (suc c.generation) ss (step (dispatches e) a)
          (raised a e c open_now changes older))

-- An event that a listener dispatches between the two halves of another event.
abbrev pub nested {ℓ} :
    {State Effect : Type ℓ}
    → Transition State Effect
    → Transition State Effect
    → ActorState State Effect
    → ActorState State Effect
nested outer inner a =
    let b = reduce outer a in launch_in b.generation outer.effects (apply inner b)
