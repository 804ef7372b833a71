-- ===== src/Access/RateLimiter/Exact.antt =====
-- `observe` of apps/agent/src/v2/services/authentication-rate-limiter.ts against the attempts of a
-- span.
use codex_everywhere.Prelude.{
  ℕ, ◌≤◌, ◌≡◌, refl, sym, ◌∙◌, Bool, true, false, List, [], ◌∷◌, ◌++◌, Option, none, some, length,
  ltb, leb, Bool-cases, inl, inr, arith,
}
use codex_everywhere.Access.RateLimiter.{
  AttemptKind, password, recovery, Policies, Policy, Limiter, Attempts, policy_of, attempts_of,
  set_attempts, is_recent, recent, consume,
}
use codex_everywhere.Access.RateLimiter.Window.{
  accepted_in, within, recent-length, recent-later, accepted-append, within-recent,
}

abbrev pub Attempt : Type 0
Attempt = AttemptKind × ℕ

-- A limiter with the account of what it let through.
pub record Observed : Type 0 where
  pub limiter : Limiter
  pub accepted : Attempts

abbrev pub noted : AttemptKind → ℕ → Observed → Option Limiter → Observed
noted kind now o none = o
noted kind now o (some l) = record {
  limiter = l;
  accepted = set_attempts kind (now ∷ attempts_of o.accepted kind) o.accepted;
}

unfoldable pub observe : Attempt → Observed → Observed
unfolding consume
observe (kind, now) o = noted kind now o (consume kind now o.limiter)

unfoldable pub run : List Attempt → Observed → Observed
unfolding observe
run [] o = o
run (a ∷ rest) o = run rest (observe a o)

-- The clock does not go back.
abbrev pub IsMonotone : ℕ → List Attempt → Type 0
IsMonotone last [] = Unit
IsMonotone last ((kind, now) ∷ rest) = (last ≤ now) × IsMonotone now rest

abbrev pub end_of : ℕ → List Attempt → ℕ
end_of last [] = last
end_of last ((kind, now) ∷ rest) = end_of now rest

abbrev pub policy : Observed → AttemptKind → Policy
policy o kind = policy_of o.limiter.policies kind

-- What is kept counts as what was let through, from now on; and no window holds too many.
pub record IsExact (last : ℕ) (o : Observed) : Type 0 where
  pub exact :
      (kind : AttemptKind) (now : ℕ)
      → last ≤ now
      → accepted_in (is_recent (policy o kind).window_ms now) (attempts_of o.limiter.attempts kind)
        ≡ accepted_in (is_recent (policy o kind).window_ms now) (attempts_of o.accepted kind)
  pub bounded :
      (kind : AttemptKind) (u : ℕ)
      → accepted_in (within (policy o kind).window_ms u) (attempts_of o.accepted kind)
        ≤ (policy o kind).limit

-- A call is let through just when its window holds fewer than the limit.
unfoldable pub lets : Attempt → Observed → Bool
lets (kind, now) o =
    ltb (accepted_in (is_recent (policy o kind).window_ms now) (attempts_of o.accepted kind))
      (policy o kind).limit

abbrev pub passes : Option Limiter → Bool
passes none = false
passes (some l) = true

consume-exact :
    (last : ℕ) (kind : AttemptKind) (now : ℕ) (o : Observed)
    → IsExact last o
    → last ≤ now
    → passes (consume kind now o.limiter) ≡ lets (kind, now) o
unfolding consume lets
consume-exact last kind now o h le =
    let w = (policy o kind).window_ms in
    ground (arith, h.exact kind now le, recent-length w now (attempts_of o.limiter.attempts kind))

-- The account of the kind that was let through.
counted :
    (p : Policy) (last now : ℕ) (l c : List ℕ)
    → last ≤ now
    → ((v : ℕ)
        → last ≤ v
        → accepted_in (is_recent p.window_ms v) l ≡ accepted_in (is_recent p.window_ms v) c)
    → (v : ℕ) → now ≤ v
    → accepted_in (is_recent p.window_ms v) (recent p.window_ms now l ++ now ∷ [])
      ≡ accepted_in (is_recent p.window_ms v) (now ∷ c)
unfolding accepted_in
counted p last now l c le ex v lv = ground (
  arith,
  ex v,
  accepted-append (is_recent p.window_ms v) (recent p.window_ms now l) now,
  recent-later p.window_ms now v l lv,
)

in_bounds :
    (p : Policy) (now : ℕ) (l c : List ℕ)
    → accepted_in (is_recent p.window_ms now) l ≡ accepted_in (is_recent p.window_ms now) c
    → leb p.limit (length (recent p.window_ms now l)) ≡ false
    → ((u : ℕ) → accepted_in (within p.window_ms u) c ≤ p.limit)
    → (u : ℕ) → accepted_in (within p.window_ms u) (now ∷ c) ≤ p.limit
unfolding accepted_in
in_bounds p now l c e lt b u =
    ground (arith, b u, within-recent p.window_ms u now c, recent-length p.window_ms now l)

module _ (last : ℕ) (kind : AttemptKind) (now : ℕ) (o : Observed) (h : IsExact last o)
    (le : last ≤ now) where
  later_IsExact : IsExact now o
  later_IsExact = record { exact = λ k v lv. h.exact k v (omega arith); bounded = h.bounded }

  abbrev kept : List ℕ
  kept = recent (policy o kind).window_ms now (attempts_of o.limiter.attempts kind)

  abbrev next : Observed
  next = record {
    limiter = record o.limiter {
      attempts = set_attempts kind (kept ++ now ∷ []) o.limiter.attempts;
    };
    accepted = set_attempts kind (now ∷ attempts_of o.accepted kind) o.accepted;
  }

let_through :
    (last : ℕ) (kind : AttemptKind) (now : ℕ) (o : Observed) (h : IsExact last o) (le : last ≤ now)
    → leb (policy o kind).limit (length (kept last kind now o h le)) ≡ false
    → IsExact now (next last kind now o h le)
let_through last password now o h le lt = record { exact = exact_of; bounded = bounded_of }
  where
    exact_of :
        (k : AttemptKind) (v : ℕ)
        → now ≤ v
        → accepted_in
            (is_recent (policy o k).window_ms v)
            (attempts_of (next last password now o h le).limiter.attempts k)
          ≡ accepted_in
              (is_recent (policy o k).window_ms v)
              (attempts_of (next last password now o h le).accepted k)
    exact_of password v lv =
        counted (policy o password) last now o.limiter.attempts.passwords o.accepted.passwords le
          (h.exact password) v lv
    exact_of recovery v lv = h.exact recovery v (omega arith)

    bounded_of :
        (k : AttemptKind) (u : ℕ)
        → accepted_in
            (within (policy o k).window_ms u)
            (attempts_of (next last password now o h le).accepted k)
          ≤ (policy o k).limit
    bounded_of password u =
        in_bounds (policy o password) now o.limiter.attempts.passwords o.accepted.passwords
          (h.exact password now le) lt (h.bounded password) u
    bounded_of recovery u = h.bounded recovery u
let_through last recovery now o h le lt = record { exact = exact_of; bounded = bounded_of }
  where
    exact_of :
        (k : AttemptKind) (v : ℕ)
        → now ≤ v
        → accepted_in
            (is_recent (policy o k).window_ms v)
            (attempts_of (next last recovery now o h le).limiter.attempts k)
          ≡ accepted_in
              (is_recent (policy o k).window_ms v)
              (attempts_of (next last recovery now o h le).accepted k)
    exact_of recovery v lv =
        counted (policy o recovery) last now o.limiter.attempts.recoveries o.accepted.recoveries le
          (h.exact recovery) v lv
    exact_of password v lv = h.exact password v (omega arith)

    bounded_of :
        (k : AttemptKind) (u : ℕ)
        → accepted_in
            (within (policy o k).window_ms u)
            (attempts_of (next last recovery now o h le).accepted k)
          ≤ (policy o k).limit
    bounded_of recovery u =
        in_bounds (policy o recovery) now o.limiter.attempts.recoveries o.accepted.recoveries
          (h.exact recovery now le) lt (h.bounded recovery) u
    bounded_of password u = h.bounded password u

observe-IsExact :
    (last : ℕ) (kind : AttemptKind) (now : ℕ) (o : Observed)
    → IsExact last o
    → last ≤ now
    → IsExact now (observe (kind, now) o)
unfolding observe consume
observe-IsExact last kind now o h le =
    elim (Bool-cases (leb (policy o kind).limit (length (kept last kind now o h le)))) [
      | inl e ↦ rw e (later_IsExact last kind now o h le)
      | inr e ↦ rw e (let_through last kind now o h le e)
    ]

run-IsExact :
    (last : ℕ) (calls : List Attempt) (o : Observed)
    → IsExact last o
    → IsMonotone last calls
    → IsExact (end_of last calls) (run calls o)
unfolding run
run-IsExact last [] o h m = h
run-IsExact last ((kind, now) ∷ rest) o h m =
    run-IsExact now rest (observe (kind, now) o) (observe-IsExact last kind now o h m.0) m.1

observe_policies :
    (kind : AttemptKind) (now : ℕ) (o : Observed)
    → (observe (kind, now) o).limiter.policies ≡ o.limiter.policies
unfolding observe consume
observe_policies kind now o = ground arith

run_policies :
    (calls : List Attempt) (o : Observed) → (run calls o).limiter.policies ≡ o.limiter.policies
unfolding run
run_policies [] o = refl
run_policies ((kind, now) ∷ rest) o =
    run_policies rest (observe (kind, now) o) ∙ observe_policies kind now o

abbrev pub fresh : Policies → Observed
fresh p = record {
  limiter = record { policies = p; attempts = record { passwords = []; recoveries = [] } };
  accepted = record { passwords = []; recoveries = [] };
}

fresh-IsExact : (p : Policies) → IsExact 0 (fresh p)
unfolding accepted_in
fresh-IsExact p = record { exact = none_kept; bounded = none_accepted }
  where
    none_kept :
        (kind : AttemptKind) (now : ℕ)
        → 0 ≤ now
        → accepted_in
            (is_recent (policy_of p kind).window_ms now)
            (attempts_of (fresh p).limiter.attempts kind)
          ≡ accepted_in
              (is_recent (policy_of p kind).window_ms now)
              (attempts_of (fresh p).accepted kind)
    none_kept password now le = refl
    none_kept recovery now le = refl

    none_accepted :
        (kind : AttemptKind) (u : ℕ)
        → accepted_in (within (policy_of p kind).window_ms u) (attempts_of (fresh p).accepted kind)
          ≤ (policy_of p kind).limit
    none_accepted password u = omega arith
    none_accepted recovery u = omega arith

within_limit :
    (p : Policies) (o : Observed) (kind : AttemptKind) (u : ℕ)
    → o.limiter.policies ≡ p
    → accepted_in (within (policy o kind).window_ms u) (attempts_of o.accepted kind)
      ≤ (policy o kind).limit
    → accepted_in (within (policy_of p kind).window_ms u) (attempts_of o.accepted kind)
      ≤ (policy_of p kind).limit
within_limit p o kind u q b = rw (sym q) b

-- From a new limiter, with a clock that does not go back: after any attempts, no span of the window's
-- length holds more than the limit that were let through, and the next attempt of a kind is let
-- through just when fewer than the limit were let through within the window before it.
pub run-exact :
    (p : Policies) (calls : List Attempt) (kind : AttemptKind) (now u : ℕ)
    → IsMonotone 0 calls
    → end_of 0 calls ≤ now
    → let after = run calls (fresh p) in
      let w = (policy_of p kind).window_ms in
      let limit = (policy_of p kind).limit in
      (accepted_in (within w u) (attempts_of after.accepted kind) ≤ limit)
      × (passes (consume kind now after.limiter)
          ≡ ltb (accepted_in (is_recent w now) (attempts_of after.accepted kind)) limit)
unfolding lets
run-exact p calls kind now u m le =
    let h = run-IsExact 0 calls (fresh p) (fresh-IsExact p) m in
    let q = run_policies calls (fresh p) in
    (
      within_limit p (run calls (fresh p)) kind u q (h.bounded kind u),
      consume-exact (end_of 0 calls) kind now (run calls (fresh p)) h le ∙ cc q,
    )
