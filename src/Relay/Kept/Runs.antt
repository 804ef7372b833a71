-- ===== src/Relay/Kept/Runs.antt =====
-- The rules of Relay/Kept over any run of apps/relay/src/relay-server.ts.
use codex_everywhere.Prelude.{
  ℕ, ◌≡◌, ◌≢◌, refl, Bool, ◌||◌, List, [], ◌∷◌, Option, none, some, String, same, length, All, leb,
  if◌then◌else◌, if_either, sym, subst, arith,
}
use codex_everywhere.Table.{find, lookup}
use codex_everywhere.Table.Maps.{found-key}
use codex_everywhere.Relay.{
  Route, Authorization, Pending, Tunnel, Relay, pending_key, has_serial, Accepted,
}
use codex_everywhere.Relay.Authorizations.{refresh, authorization_of}
use codex_everywhere.Relay.Register.{
  of_installation, Capability, FirstMessage, register, connect, look_up, accept, unknown, Outcome,
  done, thrown, Secrets,
}
use codex_everywhere.Relay.Connect.{connect_socket, look_up_socket, is_open}
use codex_everywhere.Relay.Accept.{
  accept_capability, accept_pending, fail_setup, fail_found, ready_setup, bridge_found,
  bridge_authorized, end_tunnel, end_found, without_pending, without_setup, without_tunnel,
  is_sendable,
}
use codex_everywhere.Relay.Steps.{
  Step, arrives, speaks, hesitates, leaves, waits_too_long, is_ready, fails, ends, expires,
  accept_socket, leave, leave_found, unregister, without_route, unregister_found, clear_browser,
  clear_found, clear_pending, close_listeners, time_out_pending, time_out_found, caught,
  route_message, step, run, is_socket_of, is_browser_of, capability_in, has_socket, shut,
}
use codex_everywhere.Relay.Expiry.{current-refresh}
use codex_everywhere.Relay.Kept.{IsKept}
use codex_everywhere.Relay.Kept.Handlers.{
  After, aside, register-kept, connect_tried-kept, look_up_tried-kept, accept_owned-kept,
}

-- The step happens at a time that holds.
abbrev pub HappensIn : (ℕ → Type 0) → Step → Type 0
HappensIn Holds (speaks s m id now) = Holds now
HappensIn Holds (is_ready serial now) = Holds now
HappensIn Holds (expires route now) = Holds now
HappensIn Holds _ = Unit

any_step : (e : Step) → HappensIn (λ _. Unit) e
any_step (speaks s m id now) = tt
any_step (is_ready serial now) = tt
any_step (expires route now) = tt
any_step (arrives a) = tt
any_step (hesitates s) = tt
any_step (leaves s) = tt
any_step (waits_too_long id) = tt
any_step (fails s) = tt
any_step (ends a b c d) = tt

-- Every time holds.
pub any_steps : (es : List Step) → All (HappensIn (λ _. Unit)) es
any_steps [] = tt
any_steps (e ∷ es) = (any_step e, any_steps es)

module _ (P : Relay → Type 0) (Holds : ℕ → Type 0) (Trusted : Capability → Type 0)
    (K : IsKept P Holds Trusted) where
  abbrev Then : Outcome → Type 0
  Then q = After P Holds Trusted K q

  put_aside :
      (r q : Relay)
      → P r
      → q.options ≡ r.options
      → q.routes ≡ r.routes
      → q.authorizations ≡ r.authorizations
      → q.logins ≡ r.logins
      → q.pending ≡ r.pending
      → q.setups ≡ r.setups
      → q.tunnels ≡ r.tunnels
      → P q
  put_aside r q h a b c d e f g = aside P Holds Trusted K r q h a b c d e f g

  accept_pending-kept :
      (s : ℕ) (id : String) (p : Option Pending) (c : Capability) (now : ℕ) (r : Relay)
      → Holds now
      → lookup pending_key id r.pending ≡ p
      → P r
      → Then (accept_pending s p c now r)
  accept_pending-kept s id none c now r n e h = h
  accept_pending-kept s id (some p) c now r n e h =
      if_either Then (same p.route_id c.route_id)
        (accept_owned-kept P Holds Trusted K s c.generation.owner_id p (refresh p.route_id now r)
          (authorization_of p.route_id (refresh p.route_id now r)) refl
          (λ (x : authorization_of p.route_id (refresh p.route_id now r) ≢ none).
            subst (λ (q : Relay). lookup pending_key p.id q.pending ≡ some p)
              (sym (current-refresh p.route_id now r x)) named)
          (K.refreshes p.route_id now r n h))
        h
    where
      named : lookup pending_key p.id r.pending ≡ some p
      named =
          subst (λ (j : String). lookup pending_key j r.pending ≡ some p)
            (sym (found-key pending_key id p r.pending e)) e

  accept-kept :
      (s : ℕ) (id : String) (now : ℕ) (c : Option Capability) (r : Relay)
      → Holds now
      → P r
      → Then (accept_capability s id now c r)
  accept-kept s id now none r n h = h
  accept-kept s id now (some c) r n h =
      accept_pending-kept s id (lookup pending_key id r.pending) c now r n refl h

  fail-kept : (serial : ℕ) (r : Relay) → P r → P (fail_setup serial r)
  unfolding fail_setup
  fail-kept serial r h = go (find (has_serial serial) r.setups)
    where
      go : (t : Option Tunnel) → P (fail_found serial t r)
      go none = h
      go (some t) =
          put_aside _ _ (K.prunes t.route_id (without_setup serial r) (K.drops_setup serial r h))
            refl refl refl refl refl refl refl

  bridge_authorized-kept :
      (t : Tunnel) (serial : ℕ) (a : Option Authorization) (r : Relay)
      → authorization_of t.route_id r ≡ a
      → (a ≢ none → find (has_serial serial) r.setups ≡ some t)
      → P r
      → P (bridge_authorized t serial a r)
  bridge_authorized-kept t serial none r e f h = fail-kept serial r h
  bridge_authorized-kept t serial (some a) r e f h =
      if_either P (is_open t.browser r)
        (put_aside _ _ (K.prunes t.route_id _ (K.bridges serial t a r (f (λ x. cc)) e h)) refl refl
          refl refl refl refl refl)
        (fail-kept serial r h)

  ready-kept : (serial now : ℕ) (r : Relay) → Holds now → P r → P (ready_setup serial now r)
  unfolding ready_setup
  ready-kept serial now r n h = go (find (has_serial serial) r.setups) refl
    where
      go :
          (t : Option Tunnel)
          → find (has_serial serial) r.setups ≡ t
          → P (bridge_found serial now t r)
      go none e = h
      go (some t) e =
          bridge_authorized-kept t serial (authorization_of t.route_id (refresh t.route_id now r))
            (refresh t.route_id now r) refl
            (λ (x : authorization_of t.route_id (refresh t.route_id now r) ≢ none).
              subst (λ (q : Relay). find (has_serial serial) q.setups ≡ some t)
                (sym (current-refresh t.route_id now r x)) e)
            (K.refreshes t.route_id now r n h)

  end-kept :
      (serial : ℕ) (b : Bool) (code : ℕ) (reason : String) (r : Relay)
      → P r
      → P (end_tunnel serial b code reason r)
  unfolding end_tunnel
  end-kept serial b code reason r h = go (find (has_serial serial) r.tunnels)
    where
      go : (t : Option Tunnel) → P (end_found serial b code reason t r)
      go none = h
      go (some t) =
          let pruned = K.prunes t.route_id (without_tunnel serial r) (K.drops_tunnel serial r h) in
          if_either P (is_sendable code) (put_aside _ _ pruned refl refl refl refl refl refl refl)
            (put_aside _ _ pruned refl refl refl refl refl refl refl)

  arrive-kept : (address : String) (r : Relay) → P r → P (accept_socket address r)
  unfolding accept_socket
  arrive-kept address r h =
      if_either P
        (leb r.options.max_relay_sockets (length r.sockets)
          || leb r.options.max_sockets_per_address (r.by_address address))
        (put_aside r _ h refl refl refl refl refl refl refl)
        (put_aside r _ h refl refl refl refl refl refl refl)

  leave-kept : (s : ℕ) (r : Relay) → P r → P (leave s r)
  unfolding leave
  leave-kept s r h = go (find (has_socket s) r.sockets)
    where
      go : (a : Option Accepted) → P (leave_found a r)
      go none = h
      go (some a) = put_aside r _ h refl refl refl refl refl refl refl

  unregister-kept : (s : ℕ) (r : Relay) → P r → P (unregister s r)
  unfolding unregister
  unregister-kept s r h = go (find (is_socket_of s) r.routes) refl
    where
      go :
          (route : Option Route)
          → find (is_socket_of s) r.routes ≡ route
          → P (unregister_found route r)
      go none e = h
      go (some route) e = K.prunes route.id (without_route route r) (K.unregisters s route r e h)

  clear_pending-kept : (p : Pending) (r : Relay) → P r → P (clear_pending p r)
  clear_pending-kept p r h = K.prunes p.route_id (without_pending p.id r) (K.drops_pending p.id r h)

  clear_browser-kept : (s : ℕ) (r : Relay) → P r → P (clear_browser s r)
  unfolding clear_browser
  clear_browser-kept s r h = go (find (is_browser_of s) r.pending)
    where
      go : (p : Option Pending) → P (clear_found p r)
      go none = h
      go (some p) = clear_pending-kept p r h

  time_out-kept : (id : String) (r : Relay) → P r → P (time_out_pending id r)
  unfolding time_out_pending
  time_out-kept id r h = go (lookup pending_key id r.pending)
    where
      go : (p : Option Pending) → P (time_out_found p r)
      go none = h
      go (some p) = put_aside _ _ (clear_pending-kept p r h) refl refl refl refl refl refl refl

  caught-kept : (s : ℕ) (q : Outcome) → Then q → P (caught s q)
  caught-kept s (done r) h = h
  caught-kept s (thrown r) h = put_aside r _ h refl refl refl refl refl refl refl

  module _ (secrets : Secrets)
      (trusts : (text : String) (now : ℕ) (c : Capability)
        → secrets.capability_of text now ≡ some c
        → Trusted c) where
    installed :
        (i : String) (q : Option Capability) (c : Capability)
        → of_installation i q ≡ some c
        → q ≡ some c
    installed i none c e = absurd (cc)
    installed i (some x) c e = go x.installation_id e
      where
        go :
            (j : Option String)
            → (elim j [ none ↦ some x | some y ↦ if same y i then some x else none ]) ≡ some c
            → some x ≡ some c
        go none e' = e'
        go (some y) e' = ground (arith, e')

    trusted :
        (field : Option String) (now : ℕ) (r : Relay) (c : Capability)
        → capability_in secrets field now r ≡ some c
        → Trusted c
    trusted none now r c e = absurd (cc)
    trusted (some text) now r c e =
        trusts text now c (installed r.options.installation_id (secrets.capability_of text now) c e)

    message-kept :
        (s : ℕ) (m : FirstMessage) (id : String) (now : ℕ) (r : Relay)
        → Holds now
        → P r
        → Then (route_message secrets s m id now r)
    unfolding route_message connect_socket look_up_socket
    message-kept s (register c field) id now r n h =
        register-kept P Holds Trusted K s field now (capability_in secrets c now r) r n
          (trusted c now r) h
    message-kept s (connect route) id now r n h =
        connect_tried-kept P Holds Trusted K s route id now _ r n h
    message-kept s (look_up name p) id now r n h =
        look_up_tried-kept P Holds Trusted K secrets s name p now _ r n h
    message-kept s (accept c none) id now r n h = h
    message-kept s (accept c (some j)) id now r n h =
        accept-kept s j now (capability_in secrets c now r) r n h
    message-kept s unknown id now r n h = h

    pub step-kept : (e : Step) (r : Relay) → HappensIn Holds e → P r → P (step secrets e r)
    unfolding step close_listeners
    step-kept (arrives address) r n h = arrive-kept address r h
    step-kept (speaks s m id now) r n h = caught-kept s _ (message-kept s m id now r n h)
    step-kept (hesitates s) r n h = put_aside r _ h refl refl refl refl refl refl refl
    step-kept (leaves s) r n h = clear_browser-kept s _ (
        unregister-kept s _
          (leave-kept s _ (put_aside r (shut s r) h refl refl refl refl refl refl refl)))
    step-kept (waits_too_long id) r n h = time_out-kept id r h
    step-kept (is_ready serial now) r n h = ready-kept serial now r n h
    step-kept (fails serial) r n h = fail-kept serial r h
    step-kept (ends serial b code reason) r n h = end-kept serial b code reason r h
    step-kept (expires route now) r n h = K.refreshes route now r n h

    pub run-kept :
        (es : List Step) (r : Relay) → All (HappensIn Holds) es → P r → P (run secrets es r)
    unfolding run
    run-kept [] r n h = h
    run-kept (e ∷ es) r n h = run-kept es (step secrets e r) n.1 (step-kept e r n.0 h)
