-- ===== src/Relay/Kept/Handlers.antt =====
-- The rules of Relay/Kept over each handler of apps/relay/src/relay-server.ts.
use codex_everywhere.Prelude.{
  ℕ, ◌≡◌, ◌≢◌, refl, Bool, true, false, not, List, Option, none, some, String, Bool-cases, ◌==◌,
  if_either, inl, inr, arith,
}
use codex_everywhere.Table.{lookup}
use codex_everywhere.Relay.{
  Route, Bucket, Authorization, Login, Pending, Relay, route_key, pending_key, PublicHostProfile,
  Principal,
}
use codex_everywhere.Relay.Authorizations.{refresh, authorization_of, authorize}
use codex_everywhere.Relay.Register.{
  Capability, ProfileField, Outcome, done, thrown, Secrets, register_on, may_register,
  register_capability, register_authorized, with_route, is_taken, without_previous, is_acceptable,
  profile_in, close_previous,
}
use codex_everywhere.Relay.Connect.{
  connect_tried, is_busy, connect_to, look_up_tried, look_up_login, show_profile, is_open,
}
use codex_everywhere.Relay.Accept.{accept_owned, owns, set_up, without_pending}
use codex_everywhere.Relay.Expiry.{is_taken-refresh}
use codex_everywhere.Relay.Kept.{IsKept}

module _ (P : Relay → Type 0) (Holds : ℕ → Type 0) (Trusted : Capability → Type 0)
    (K : IsKept P Holds Trusted) where
  abbrev pub After : Outcome → Type 0
  After (done r) = P r
  After (thrown r) = P r

  -- A change to the other fields of the relay.
  pub aside :
      (r q : Relay)
      → P r
      → q.options ≡ r.options
      → q.routes ≡ r.routes
      → q.authorizations ≡ r.authorizations
      → q.logins ≡ r.logins
      → q.pending ≡ r.pending
      → q.setups ≡ r.setups
      → q.tunnels ≡ r.tunnels
      → P q
  aside r q h a b c d e f g = K.elsewhere r q a b c d e f g h

  close_previous-kept : (s : ℕ) (p : Option Route) (r : Relay) → P r → P (close_previous s p r)
  close_previous-kept s none r h = h
  close_previous-kept s (some p) r h =
      if_either P (p.socket == s) h (aside r _ h refl refl refl refl refl refl refl)

  register_authorized-kept :
      (s : ℕ) (c : Capability) (f : Option PublicHostProfile) (p : Option Route) (q : Option Relay)
      (r : Relay)
      → P r
      → ((x : Relay) → q ≡ some x → P (with_route s c f x))
      → After (register_authorized s c f p q r)
  register_authorized-kept s c f p none r h g = h
  register_authorized-kept s c f p (some q) r h g =
      aside _ _ (close_previous-kept s p _ (g q refl)) refl refl refl refl refl refl refl

  register_on-kept :
      (s : ℕ) (c : Capability) (f : Option PublicHostProfile) (r : Relay)
      → Trusted c
      → is_taken c.route_id c.login_id r.logins ≡ false
      → P r
      → After (register_on s c f r)
  unfolding register_on
  register_on-kept s c f r t free h =
      elim (Bool-cases
        (may_register c (authorization_of c.route_id r) (lookup route_key c.route_id r.routes))) [
          | inl ok ↦ rw ok (
              register_authorized-kept s c f (lookup route_key c.route_id r.routes)
                (authorize c.route_id c.generation (without_previous c r)) (without_previous c r)
                (K.renames c r h) (λ q e. K.registers s c f r q t free ok e h))
          | inr bad ↦ rw bad h
        ]

  pub register-kept :
      (s : ℕ) (field : ProfileField) (now : ℕ) (c : Option Capability) (r : Relay)
      → Holds now
      → ((x : Capability) → c ≡ some x → Trusted x)
      → P r
      → After (register_capability s field now c r)
  unfolding is_acceptable
  register-kept s field now none r n t h = h
  register-kept s field now (some c) r n t h = elim (Bool-cases (is_acceptable c field r.logins)) [
    | inl ok ↦ rw ok (
        register_on-kept s c (profile_in field) (refresh c.route_id now r) (t c refl)
          (is_taken-refresh c.route_id now c.route_id c.login_id r (ground (arith, ok)))
          (K.refreshes c.route_id now r n h))
    | inr bad ↦ rw bad h
  ]

  connect_to-kept :
      (s : ℕ) (id j : String) (a : Option Authorization) (route : Option Route) (r : Relay)
      → authorization_of j r ≡ a
      → P r
      → P (connect_to s id j a route r)
  connect_to-kept s id j none route r e h = aside r _ h refl refl refl refl refl refl refl
  connect_to-kept s id j (some a) none r e h = aside r _ h refl refl refl refl refl refl refl
  connect_to-kept s id j (some a) (some route) r e h =
      if_either P (not (is_open route.socket r)) (aside r _ h refl refl refl refl refl refl refl)
        (elim (Bool-cases (is_busy j r)) [
          | inl busy ↦ rw busy (aside r _ h refl refl refl refl refl refl refl)
          | inr free ↦
              rw free
                (aside _ _ (K.waits s id j a route r e free h) refl refl refl refl refl refl refl)
        ])

  pub connect_tried-kept :
      (s : ℕ) (route : Option String) (id : String) (now : ℕ) (t : List Bucket × Bool) (r : Relay)
      → Holds now
      → P r
      → After (connect_tried s route id now t r)
  connect_tried-kept s route id now (bs, false) r n h =
      aside r _ h refl refl refl refl refl refl refl
  connect_tried-kept s none id now (bs, true) r n h = aside r _ h refl refl refl refl refl refl refl
  connect_tried-kept s (some j) id now (bs, true) r n h =
      let counted : Relay = record r { connects = bs } in
      let current = refresh j now counted in
      connect_to-kept s id j (authorization_of j current) (lookup route_key j current.routes)
        current refl
        (K.refreshes j now counted n (aside r counted h refl refl refl refl refl refl refl))

  show_profile-kept :
      (s : ℕ) (j : String) (a : Option Authorization) (route : Option Route) (r : Relay)
      → P r
      → P (show_profile s j a route r)
  show_profile-kept s j none route r h = aside r _ h refl refl refl refl refl refl refl
  show_profile-kept s j (some a) none r h = aside r _ h refl refl refl refl refl refl refl
  show_profile-kept s j (some a) (some route) r h =
      elim route.profile
        as (λ f. P (show_profile s j (some a) (some (record route { profile = f })) r)) [
          | none ↦ aside r _ h refl refl refl refl refl refl refl
          | some f ↦
              if_either P (is_open route.socket r) (aside r _ h refl refl refl refl refl refl refl)
                (aside r _ h refl refl refl refl refl refl refl)
        ]

  look_up_login-kept :
      (s now : ℕ) (l : Option Login) (r : Relay) → Holds now → P r → P (look_up_login s now l r)
  look_up_login-kept s now none r n h = aside r _ h refl refl refl refl refl refl refl
  look_up_login-kept s now (some l) r n h =
      let current = refresh l.route_id now r in
      show_profile-kept s l.route_id (authorization_of l.route_id current)
        (lookup route_key l.route_id current.routes) current (K.refreshes l.route_id now r n h)

  pub look_up_tried-kept :
      (x : Secrets) (s : ℕ) (name : Option String) (p : Option Principal) (now : ℕ)
      (t : List Bucket × Bool) (r : Relay)
      → Holds now
      → P r
      → After (look_up_tried x s name p now t r)
  look_up_tried-kept x s name p now (bs, false) r n h =
      aside r _ h refl refl refl refl refl refl refl
  look_up_tried-kept x s none none now (bs, true) r n h =
      aside r _ h refl refl refl refl refl refl refl
  look_up_tried-kept x s (some m) none now (bs, true) r n h =
      aside r _ h refl refl refl refl refl refl refl
  look_up_tried-kept x s none (some p) now (bs, true) r n h =
      aside r _ h refl refl refl refl refl refl refl
  look_up_tried-kept x s (some m) (some p) now (bs, true) r n h =
      look_up_login-kept s now _ (record r { lookups = bs }) n
        (aside r _ h refl refl refl refl refl refl refl)

  set_up-kept :
      (s : ℕ) (p : Pending) (a : Authorization) (r : Relay)
      → lookup pending_key p.id r.pending ≡ some p
      → authorization_of p.route_id r ≡ some a
      → P r
      → After (set_up s p (without_pending p.id r))
  set_up-kept s p a r e f h =
      if_either After (is_open p.browser r)
        (aside _ _ (K.sets_up s p a r e f h) refl refl refl refl refl refl refl)
        (K.drops_pending p.id r h)

  pub accept_owned-kept :
      (s : ℕ) (owner : Option String) (p : Pending) (r : Relay) (a : Option Authorization)
      → authorization_of p.route_id r ≡ a
      → (a ≢ none → lookup pending_key p.id r.pending ≡ some p)
      → P r
      → After (accept_owned s owner p r)
  accept_owned-kept s owner p r none e found h = rw e h
  accept_owned-kept s owner p r (some a) e found h =
      if_either After (owns (authorization_of p.route_id r) owner p.owner_id)
        (set_up-kept s p a r (found (λ x. cc)) e h) h
