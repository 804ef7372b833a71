-- ===== src/Access/RateLimiter.antt =====
-- `AuthenticationRateLimiter` of apps/agent/src/v2/services/authentication-rate-limiter.ts: a sliding
-- window of attempts for each kind of attempt. A time is in milliseconds, and `now - attempt <
-- windowMs` is written as `now < attempt + windowMs`.
pub mod Window
pub mod Exact
use codex_everywhere.Prelude.{
  ℕ, suc, ◌+◌, ◌*◌, Bool, true, false, ◌||◌, List, [], ◌∷◌, ◌++◌, Option, none, some, length, ltb,
  leb, if◌then◌else◌,
}

pub data AttemptKind : Type 0 where
  password recovery : AttemptKind

pub record Policy : Type 0 where
  pub limit : ℕ
  pub window_ms : ℕ

pub record Policies : Type 0 where
  pub of_password : Policy
  pub of_recovery : Policy

-- Number.MAX_SAFE_INTEGER.
abbrev pub max_safe_integer : ℕ
max_safe_integer = 9007199254740991

abbrev pub is_safe : ℕ → Bool
is_safe n = leb n max_safe_integer

abbrev pub is_invalid : Policy → Bool
is_invalid p =
    ltb max_safe_integer p.limit
    || (ltb p.limit 1 || (ltb max_safe_integer p.window_ms || ltb p.window_ms 1))

unfoldable pub validate_policy : Policy → Option Policy
validate_policy p = if is_invalid p then none else some p

abbrev pub default_policies : Policies
default_policies = record {
  of_password = record { limit = 20; window_ms = 5 * 60000 };
  of_recovery = record { limit = 10; window_ms = 5 * 60000 };
}

-- The times kept for each kind: `#attempts`, where a missing kind is an empty list.
pub record Attempts : Type 0 where
  pub passwords : List ℕ
  pub recoveries : List ℕ

pub record Limiter : Type 0 where
  pub policies : Policies
  pub attempts : Attempts

abbrev pub given_or : Policy → Option Policy → Policy
given_or p none = p
given_or p (some q) = q

abbrev pub both : Option Policy → Option Policy → Option Limiter
both (some p) (some r) = some (record {
  policies = record { of_password = p; of_recovery = r };
  attempts = record { passwords = []; recoveries = [] };
})
both _ _ = none

-- The constructor; `none` where it throws.
unfoldable pub new_limiter : Option Policy → Option Policy → Option Limiter
unfolding validate_policy
new_limiter p r =
    both (validate_policy (given_or default_policies.of_password p))
      (validate_policy (given_or default_policies.of_recovery r))

abbrev pub policy_of : Policies → AttemptKind → Policy
policy_of p password = p.of_password
policy_of p recovery = p.of_recovery

abbrev pub attempts_of : Attempts → AttemptKind → List ℕ
attempts_of a password = a.passwords
attempts_of a recovery = a.recoveries

abbrev pub set_attempts : AttemptKind → List ℕ → Attempts → Attempts
set_attempts password ts a = record a { passwords = ts }
set_attempts recovery ts a = record a { recoveries = ts }

abbrev pub is_recent : ℕ → ℕ → ℕ → Bool
is_recent window now attempt = ltb now (attempt + window)

unfoldable pub recent : ℕ → ℕ → List ℕ → List ℕ
recent window now [] = []
recent window now (t ∷ ts) =
    let rest = recent window now ts in if is_recent window now t then t ∷ rest else rest

abbrev pub admit : Limiter → AttemptKind → ℕ → List ℕ → Option Limiter
admit l kind now ts =
    if leb (policy_of l.policies kind).limit (length ts)
    then none
    else some (record l { attempts = set_attempts kind (ts ++ now ∷ []) l.attempts })

-- `consume`; `none` is AUTHENTICATION_RATE_LIMITED.
unfoldable pub consume : AttemptKind → ℕ → Limiter → Option Limiter
consume kind now l =
    admit l kind now
      (recent (policy_of l.policies kind).window_ms now (attempts_of l.attempts kind))
