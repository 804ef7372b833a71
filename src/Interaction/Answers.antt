-- ===== src/Interaction/Answers.antt =====
-- The answers to the requests of app-server, counted over apps/agent/src/v2/services/interaction-
-- broker.ts.
use codex_everywhere.Prelude.{
  ℕ, suc, ◌+◌, ◌≤◌, ◌≡◌, refl, ap, Bool, true, not, List, [], ◌∷◌, ◌++◌, Option, none, some, String,
  same, ◌==◌, if◌then◌else◌, if_either, arith,
}
use codex_everywhere.Table.{delete, exists, at, lookup, find}
use codex_everywhere.Interaction.{
  InteractionKind, Payload, ServerRequest, BrokerEntry, InteractionResponse, Adapted, error,
  already_resolved, Callback, Broker, Outcome, returned, thrown, Interaction, interaction_of,
  entry_id, interaction_kind, interaction_id, non_empty, call_back, add_kind, add_at, add_thread,
  add_params, add, adapt_interaction_response, respond_adapted, respond_entry, respond, emit,
  failed, fail_entries, fail_all,
}

unfoldable pub answered : ℕ → List Callback → ℕ
answered n [] = 0
answered n (c ∷ cs) = let rest = answered n cs in if c.number == n then suc rest else rest

unfoldable pub waiting : ℕ → List BrokerEntry → ℕ
waiting n [] = 0
waiting n (e ∷ es) = let rest = waiting n es in if e.request.number == n then suc rest else rest

abbrev pub due : ℕ → Broker → ℕ
due n b = answered n b.callbacks + waiting n b.entries

abbrev pub once : ℕ → ServerRequest → ℕ
once n r = if r.number == n then 1 else 0

waiting-append :
    (n : ℕ) (es : List BrokerEntry) (e : BrokerEntry)
    → waiting n (es ++ e ∷ []) ≡ waiting n es + once n e.request
unfolding waiting
waiting-append n [] e = ground arith
waiting-append n (x ∷ xs) e = ground (arith, waiting-append n xs e)

waiting-delete :
    (n : ℕ) (id : String) (es : List BrokerEntry)
    → waiting n (delete (at entry_id id) es) ≤ waiting n es
unfolding waiting delete
waiting-delete n id [] = omega arith
waiting-delete n id (x ∷ xs) = ground (arith, waiting-delete n id xs)

waiting-taken :
    (n : ℕ) (id : String) (es : List BrokerEntry) (e : BrokerEntry)
    → lookup entry_id id es ≡ some e
    → waiting n (delete (at entry_id id) es) + once n e.request ≤ waiting n es
unfolding waiting delete find
waiting-taken n id [] e q = cc q
waiting-taken n id (x ∷ xs) e q = ground (arith, waiting-taken n id xs e, waiting-delete n id xs)

deleted-none :
    (id : String) (es : List BrokerEntry) → lookup entry_id id (delete (at entry_id id) es) ≡ none
unfolding delete find
deleted-none id [] = refl
deleted-none id (x ∷ xs) = ground (arith, deleted-none id xs)

module _ (n : ℕ) (b : Broker) where
  -- A step that makes no more than k requests due.
  abbrev pub AtMost {ℓ} : {A : Type ℓ} → ℕ → Broker × A → Type 0
  AtMost k p = due n p.0 ≤ due n b + k

  add-AtMost : (r : ServerRequest) (expected : String) → AtMost (once n r) (add r expected b)
  unfolding add answered
  add-AtMost r expected = go_params r.params
    where
      go_kind :
          (p : Payload) (t i : String) (k : Option InteractionKind)
          → AtMost (once n r) (add_kind r p t i b k)
      go_kind p t i none = omega arith
      go_kind p t i (some k) = omega (
        arith,
        waiting-append n b.entries (record { interaction = interaction_of r p t i k; request = r }),
      )

      refused :
          (m : String)
          → answered n (call_back r (error m) b).callbacks + waiting n b.entries
            ≤ due n b + once n r
      refused m = ground arith

      go_at :
          (p : Payload) (t : String) → AtMost (once n r) (add_at r p t (interaction_id t r.id) b)
      go_at p t =
          if_either (λ (x : Broker × Outcome Interaction). AtMost (once n r) x)
            (exists (at entry_id (interaction_id t r.id)) b.entries)
            (refused "Duplicate interaction")
            (go_kind p t (interaction_id t r.id) (interaction_kind r.method))

      go_thread :
          (p : Payload) (o : Option String) → AtMost (once n r) (add_thread r p expected b o)
      go_thread p none = omega arith
      go_thread p (some t) =
          if_either (λ (x : Broker × Outcome Interaction). AtMost (once n r) x)
            (not (same t expected)) (refused "Thread lease mismatch") (go_at p t)

      go_params : (o : Option Payload) → AtMost (once n r) (add_params r expected b o)
      go_params none = omega arith
      go_params (some p) = go_thread p (non_empty p.thread_id)

  respond-AtMost :
      (works : Bool) (id : String) (x : InteractionResponse) → AtMost 0 (respond works id x b)
  unfolding respond answered
  respond-AtMost works id x = go (lookup entry_id id b.entries) refl
    where
      go :
          (m : Option BrokerEntry)
          → lookup entry_id id b.entries ≡ m
          → AtMost 0 (respond_entry works id x b m)
      go none q = omega arith
      go (some e) q = go_adapted (adapt_interaction_response e x)
        where
          go_adapted : (a : Option Adapted) → AtMost 0 (respond_adapted works id e b a)
          go_adapted none = omega arith
          go_adapted (some a) =
              if_either (λ (y : Broker × Outcome (Unit {0})). AtMost 0 y) works
                (ground (arith, waiting-taken n id b.entries e q))
                (ground (arith, waiting-taken n id b.entries e q))

-- What waits when everything fails is answered, each request as often as it waits.
failed-due :
    (n : ℕ) (reason : String) (es : List BrokerEntry) (b : Broker)
    → answered n (fail_entries reason es b).callbacks ≡ answered n b.callbacks + waiting n es
unfolding answered waiting
failed-due n reason [] b = omega arith
failed-due n reason (e ∷ es) b =
    let next = emit (failed e.interaction.id reason) (call_back e.request (error reason) b) in
    ground (arith, failed-due n reason es next)

failed_entries :
    (reason : String) (es : List BrokerEntry) (b : Broker)
    → (fail_entries reason es b).entries ≡ b.entries
failed_entries reason [] b = refl
failed_entries reason (e ∷ es) b =
    failed_entries reason es
      (emit (failed e.interaction.id reason) (call_back e.request (error reason) b))

-- After `failAll` nothing waits, and every request that waited has been called back.
pub fail_all-answers :
    (n : ℕ) (reason : String) (b : Broker)
    → let after = fail_all reason b in
      (after.entries ≡ [])
      × (answered n after.callbacks ≡ answered n b.callbacks + waiting n b.entries)
unfolding fail_all
fail_all-answers n reason b = (
  failed_entries reason b.entries (record b { entries = [] }),
  failed-due n reason b.entries (record b { entries = [] }),
)

-- Of two devices that answer the same interaction, the second is told that it is resolved and changes
-- nothing.
pub respond-respond :
    (id : String) (x y : InteractionResponse) (works : Bool) (b : Broker)
    → (respond true id x b).1 ≡ returned tt
    → let after = (respond true id x b).0 in
      respond works id y after ≡ (after, thrown already_resolved)
unfolding respond
respond-respond id x y works b h = go (lookup entry_id id b.entries) h
  where
    Told : Broker × Outcome (Unit {0}) → Type 0
    Told p =
        p.1 ≡ returned tt
        → respond_entry works id y p.0 (lookup entry_id id p.0.entries)
          ≡ (p.0, thrown already_resolved)

    taken : (e : BrokerEntry) (a : Option Adapted) → Told (respond_adapted true id e b a)
    taken e none q = cc q
    taken e (some a) q =
        ap (respond_entry works id y (respond_adapted true id e b (some a)).0)
          (deleted-none id b.entries)

    go : (m : Option BrokerEntry) → Told (respond_entry true id x b m)
    go none q = cc q
    go (some e) q = taken e (adapt_interaction_response e x) q

pub data Step : Type 0 where
  adds : ServerRequest → String → Step
  responds : Bool → String → InteractionResponse → Step
  fails : String → Step

unfoldable pub step : Step → Broker → Broker
step (adds r expected) b = (add r expected b).0
step (responds works id x) b = (respond works id x b).0
step (fails reason) b = fail_all reason b

unfoldable pub run : List Step → Broker → Broker
unfolding step
run [] b = b
run (s ∷ ss) b = run ss (step s b)

-- How often a request comes in.
unfoldable pub arrivals : ℕ → List Step → ℕ
arrivals n [] = 0
arrivals n (adds r expected ∷ ss) = once n r + arrivals n ss
arrivals n (responds works id x ∷ ss) = arrivals n ss
arrivals n (fails reason ∷ ss) = arrivals n ss

run-due : (n : ℕ) (ss : List Step) (b : Broker) → due n (run ss b) ≤ due n b + arrivals n ss
unfolding run step arrivals fail_all waiting
run-due n [] b = omega arith
run-due n (adds r expected ∷ ss) b =
    omega (arith, run-due n ss (add r expected b).0, add-AtMost n b r expected)
run-due n (responds works id x ∷ ss) b =
    omega (arith, run-due n ss (respond works id x b).0, respond-AtMost n b works id x)
run-due n (fails reason ∷ ss) b = omega (
  arith,
  run-due n ss (fail_all reason b),
  ap (waiting n) (fail_all-answers n reason b).0,
  (fail_all-answers n reason b).1,
)

-- Over any requests, responses of any devices and failures, from a broker that has no entries and has
-- called nothing back, a request of app-server is answered no more often than it came in.
pub answered-le-arrivals :
    (n : ℕ) (ss : List Step) (b : Broker)
    → b.entries ≡ []
    → b.callbacks ≡ []
    → answered n (run ss b).callbacks ≤ arrivals n ss
unfolding waiting answered
answered-le-arrivals n ss b p q = omega (arith, run-due n ss b, ap (waiting n) p, ap (answered n) q)
