-- ===== src/Access/RateLimiter/Window.antt =====
-- What the times kept in the window count.
use codex_everywhere.Prelude.{
  ℕ, suc, ◌+◌, ◌≤◌, ◌≡◌, refl, Bool, true, ◌&&◌, List, [], ◌∷◌, ◌++◌, length, ltb, leb,
  if◌then◌else◌, arith,
}
use codex_everywhere.Access.RateLimiter.{is_recent, recent}

-- An independent account: the attempts that were let through, newest first.
unfoldable pub accepted_in : (ℕ → Bool) → List ℕ → ℕ
accepted_in p [] = 0
accepted_in p (t ∷ ts) = let rest = accepted_in p ts in if p t then suc rest else rest

-- The times from u on, for the length of the window.
abbrev pub within : ℕ → ℕ → ℕ → Bool
within window u t = leb u t && ltb t (u + window)

pub recent-length :
    (w now : ℕ) (ts : List ℕ) → length (recent w now ts) ≡ accepted_in (is_recent w now) ts
unfolding recent accepted_in
recent-length w now [] = refl
recent-length w now (t ∷ ts) = ground (arith, recent-length w now ts)

-- What is dropped as old stays old.
pub recent-later :
    (w now later : ℕ) (ts : List ℕ)
    → now ≤ later
    → accepted_in (is_recent w later) (recent w now ts) ≡ accepted_in (is_recent w later) ts
unfolding recent accepted_in
recent-later w now later [] le = refl
recent-later w now later (t ∷ ts) le = ground (arith, recent-later w now later ts)

pub accepted-append :
    (p : ℕ → Bool) (ts : List ℕ) (t : ℕ) → accepted_in p (ts ++ t ∷ []) ≡ accepted_in p (t ∷ ts)
unfolding accepted_in
accepted-append p [] t = refl
accepted-append p (x ∷ xs) t = ground (arith, accepted-append p xs t)

-- What lies within a window that a time lies in is recent at that time.
pub within-recent :
    (w u now : ℕ) (ts : List ℕ)
    → within w u now ≡ true
    → accepted_in (within w u) ts ≤ accepted_in (is_recent w now) ts
unfolding accepted_in
within-recent w u now [] h = omega arith
within-recent w u now (t ∷ ts) h = ground (arith, within-recent w u now ts)
