-- ===== src/Web/QueueActor/Flight.antt =====
-- The operation that is in flight in apps/web/src/v4/actors/queue-actor.ts, and its outcome.
use codex_everywhere.Prelude.{
  ◌≡◌, refl, ◌∙◌, if_either, Bool, true, false, ◌&&◌, ◌||◌, not, List, [], ◌∷◌, Option, none, some,
  String, same, if◌then◌else◌, All, arith,
}
use codex_everywhere.Kernel.Actor.{
  ActorState, Context, is_current, member, abort, dispatch, apply, is_contradictory,
}
use codex_everywhere.Kernel.Actor.Stale.{or_same}
use codex_everywhere.Web.QueueActor.{
  QueueActorState, Status, mutating, loading, reconciling, Effect, Event, load, add, remove, steer,
  acknowledge, changed, removed, mutated, mutation_removed, unknown, failed, reduce_queue, Move,
  ignored, mutate, starting, fetch, adds, removes, steers, acknowledges, is_busy, is_ready,
  status_of,
}

-- What the pages and the events of the Gateway dispatch; the rest comes from the effects.
abbrev pub is_external : Event → Bool
is_external (load t) = true
is_external (add t s) = true
is_external (remove i) = true
is_external (steer i s) = true
is_external (acknowledge i d) = true
is_external (changed i) = true
is_external (removed i) = true
is_external _ = false

abbrev pub Actor : Type 0
Actor = ActorState QueueActorState Effect

unfoldable pub dispatch_all : List (String × Event) → Actor → Actor
dispatch_all [] a = a
dispatch_all (e ∷ es) a = dispatch_all es (or_same a (dispatch reduce_queue e a))

-- What an external event may change: the items.
pub record IsSame (a b : Actor) : Type 0 where
  pub status : a.state.status ≡ b.state.status
  pub operation_key : a.state.operation_key ≡ b.state.operation_key
  pub generation : a.generation ≡ b.generation
  pub effect_scope : a.effect_scope ≡ b.effect_scope
  pub aborted : a.aborted ≡ b.aborted
  pub started : a.started ≡ b.started
  pub closed : a.closed ≡ b.closed

-- A move that leaves the effects and, of the state, all but the items.
pub record IsQuiet (s : QueueActorState) (m : Move) : Type 0 where
  pub preserves : m.preserve_effects ≡ true
  pub no_effects : m.effects ≡ []
  pub status : m.state.status ≡ s.status
  pub operation_key : m.state.operation_key ≡ s.operation_key

unchanged_actor : (a : Actor) → IsSame a a
unchanged_actor a = record {
  status = refl;
  operation_key = refl;
  generation = refl;
  effect_scope = refl;
  aborted = refl;
  started = refl;
  closed = refl;
}

then_IsSame : {a b c : Actor} → IsSame a b → IsSame b c → IsSame a c
then_IsSame f g = record {
  status = f.status ∙ g.status;
  operation_key = f.operation_key ∙ g.operation_key;
  generation = f.generation ∙ g.generation;
  effect_scope = f.effect_scope ∙ g.effect_scope;
  aborted = f.aborted ∙ g.aborted;
  started = f.started ∙ g.started;
  closed = f.closed ∙ g.closed;
}

quiet-IsSame :
    (a : Actor) (m : Move)
    → IsQuiet a.state m
    → IsSame
        (or_same a
          (if a.closed then none else (if is_contradictory m then none else some (apply m a))))
        a
quiet-IsSame a m q =
    go m.state m.effects m.preserve_effects q.preserves q.no_effects q.status q.operation_key
  where
    go :
        (st : QueueActorState) (es : List Effect) (p : Bool)
        → p ≡ true
        → es ≡ []
        → st.status ≡ a.state.status
        → st.operation_key ≡ a.state.operation_key
        → let n : Move = record { state = st; effects = es; preserve_effects = p } in
          IsSame
            (or_same a
              (if a.closed then none else (if is_contradictory n then none else some (apply n a))))
            a
    go st (e ∷ es) p x y z w = cc y
    go st [] false x y z w = cc x
    go st [] true x y z w =
        if_either (λ (o : Option Actor). IsSame (or_same a o) a) a.closed (unchanged_actor a)
          (record {
            status = z;
            operation_key = w;
            generation = refl;
            effect_scope = refl;
            aborted = refl;
            started = refl;
            closed = refl;
          })

ignored-IsQuiet : (s : QueueActorState) → IsQuiet s (ignored s)
ignored-IsQuiet s = record {
  preserves = refl;
  no_effects = refl;
  status = refl;
  operation_key = refl;
}

busy_not_ready : (st : Status) → is_busy st ≡ true → is_ready st ≡ false
busy_not_ready st h = ground (arith, h)

-- Whatever the pages or the Gateway dispatch while an operation is in flight is quiet.
external-IsQuiet :
    (key : String) (e : Event) (s : QueueActorState)
    → is_external e ≡ true
    → is_busy s.status ≡ true
    → IsQuiet s (reduce_queue s (key, e))
unfolding reduce_queue
external-IsQuiet key e s x busy = go e x
  where
    guarded : (b : Bool) (m : Move) → b ≡ true → IsQuiet s (if b then ignored s else m)
    guarded true m p = ignored-IsQuiet s
    guarded false m p = cc p

    refused : (b : Bool) (m : Move) → b ≡ false → IsQuiet s (if b then m else ignored s)
    refused true m p = cc p
    refused false m p = ignored-IsQuiet s

    no_mutation : (f : Effect) → IsQuiet s (mutate key f s)
    no_mutation f =
        refused (is_ready s.status)
          (starting (record s { status = mutating; operation_key = some key }) f)
          (busy_not_ready s.status busy)

    go : (e : Event) → is_external e ≡ true → IsQuiet s (reduce_queue s (key, e))
    go (load t) p =
        guarded (is_busy s.status) (starting (record s { status = loading }) (fetch t)) busy
    go (add t text) p = no_mutation (adds t text key)
    go (remove i) p = no_mutation (removes i key)
    go (steer i text) p = no_mutation (steers i text key)
    go (acknowledge i d) p = no_mutation (acknowledges i d key)
    go (changed i) p = record {
      preserves = refl;
      no_effects = refl;
      status = refl;
      operation_key = refl;
    }
    go (removed i) p = record {
      preserves = refl;
      no_effects = refl;
      status = refl;
      operation_key = refl;
    }
    go _ p = cc p

abbrev pub IsExternal : String × Event → Type 0
IsExternal (key, e) = is_external e ≡ true

dispatch_all-IsSame :
    (es : List (String × Event)) (a : Actor)
    → All IsExternal es
    → is_busy a.state.status ≡ true
    → IsSame (dispatch_all es a) a
unfolding dispatch_all dispatch
dispatch_all-IsSame [] a x busy = unchanged_actor a
dispatch_all-IsSame ((key, e) ∷ es) a x busy =
    let first =
      quiet-IsSame a (reduce_queue a.state (key, e)) (external-IsQuiet key e a.state x.0 busy) in
    then_IsSame
      (dispatch_all-IsSame es (or_same a (dispatch reduce_queue (key, e) a)) x.1
        (cc (first.status, busy)))
      first

-- While an operation is in flight or reconciled, whatever the pages and the Gateway's notifications
-- dispatch starts no effect and leaves the status and the operation key; the effect that was current
-- stays current, so its outcome will be taken.
pub flight-stays :
    (es : List (String × Event)) (a : Actor) (c : Context)
    → All IsExternal es
    → is_busy a.state.status ≡ true
    → is_current c a ≡ true
    → let b = dispatch_all es a in
      (b.state.status ≡ a.state.status)
      × ((b.state.operation_key ≡ a.state.operation_key)
          × ((b.started ≡ a.started) × (is_current c b ≡ true)))
flight-stays es a c x busy current =
    let q = dispatch_all-IsSame es a x busy in
    (
      q.status,
      (
        q.operation_key,
        (q.started, cc (q.generation, q.effect_scope, q.aborted, q.closed, current)),
      ),
    )

abbrev pub is_mutation : Effect → Bool
is_mutation (fetch t) = false
is_mutation (status_of k) = false
is_mutation _ = true

-- The scope that the actor opens next has not been used.
abbrev pub is_fresh : Actor → Bool
is_fresh a = not (member a.next_scope (abort a.effect_scope a.aborted))

-- The effect that was started last asks for the status of the operation that the actor reconciles,
-- and its answer will be taken.
abbrev pub asks_for : Option String → List (Context × Effect) → Actor → Bool
asks_for (some key) ((c, status_of k) ∷ log) b = same k key && is_current c b
asks_for _ _ b = false

abbrev pub is_idle : Option String → Bool
is_idle none = true
is_idle (some key) = false

abbrev pub is_reconciling : Status → Bool
is_reconciling reconciling = true
is_reconciling _ = false

-- The answer was taken, and the actor is ready with no operation, or asks for the status of the one
-- that it reconciles.
abbrev pub is_settled : Option (Actor × Bool) → Bool
is_settled (some (b, true)) =
    is_ready b.state.status && is_idle b.state.operation_key
    || is_reconciling b.state.status && asks_for b.state.operation_key b.started b
is_settled _ = false

abbrev is_outcome : Event → Bool
is_outcome (mutated i) = true
is_outcome (mutation_removed i) = true
is_outcome (unknown k) = true
is_outcome (failed s u) = not u
is_outcome _ = false
