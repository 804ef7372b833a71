-- ===== src/Relay/Expiry.antt =====
-- What it means that an authorization is current.
use codex_everywhere.Prelude.{
  ℕ, ◌≡◌, refl, ◌⊎◌, inl, inr, Bool-cases, false, Option, none, some, String, same_refl, List, ◌≢◌,
  arith, if_either,
}
use codex_everywhere.Table.{lookup}
use codex_everywhere.Table.Maps.{lookup-delete_key}
use codex_everywhere.Relay.{Relay, Login, authorization_key, login_key, route_key}
use codex_everywhere.Relay.Register.{is_taken}
use codex_everywhere.Relay.Authorizations.{
  drop_login, login_of, expire, refresh, authorization_of, is_past_generation,
}

pub expire-none : (k : String) (r : Relay) → authorization_of k (expire k r) ≡ none
unfolding expire
expire-none k r =
    ground (arith, lookup-delete_key authorization_key k k r.authorizations, same_refl k)

-- A route's state is as it was, or its authorization is over.
pub refresh-cases :
    (k : String) (now : ℕ) (r : Relay)
    → (refresh k now r ≡ r) ⊎ (authorization_of k (refresh k now r) ≡ none)
unfolding refresh
refresh-cases k now r = elim (Bool-cases (is_past_generation now (authorization_of k r))) [
  | inl past ↦ inr (rw past (expire-none k r))
  | inr current ↦ inl (rw current)
]

-- A table whose answers are gone or the same.
is_taken-drop :
    (k j : String) (l m : Option String) (ls : List Login)
    → is_taken j l ls ≡ false
    → is_taken j l (drop_login k m ls) ≡ false
is_taken-drop k j none m ls h = refl
is_taken-drop k j (some l) none ls h = h
is_taken-drop k j (some l) (some m) ls h = ground (arith, h, lookup-delete_key login_key l m ls)

-- No login is taken by an expiry.
pub is_taken-refresh :
    (k : String) (now : ℕ) (j : String) (l : Option String) (r : Relay)
    → is_taken j l r.logins ≡ false
    → is_taken j l (refresh k now r).logins ≡ false
unfolding refresh expire
is_taken-refresh k now j l r h =
    if_either (λ (x : Relay). is_taken j l x.logins ≡ false)
      (is_past_generation now (authorization_of k r))
      (is_taken-drop k j l (login_of (lookup route_key k r.routes)) r.logins h) h

-- A route whose authorization is current is as it was.
pub current-refresh :
    (k : String) (now : ℕ) (r : Relay)
    → authorization_of k (refresh k now r) ≢ none
    → refresh k now r ≡ r
current-refresh k now r h = elim (refresh-cases k now r) [ inl e ↦ e | inr n ↦ absurd (h n) ]
