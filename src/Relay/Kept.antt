-- ===== src/Relay/Kept.antt =====
-- What an invariant of the relay has to bear: each change that a handler makes to the tables, with what
-- the handler has checked before. `Holds` are the times at which things happen, `Trusted` the
-- capabilities that are verified.
pub mod Handlers
pub mod Runs
use codex_everywhere.Prelude.{
  ℕ, suc, ◌+◌, ◌≤◌, ◌<◌, ◌≡◌, ◌∙◌, refl, Bool, true, false, ◌&&◌, ◌||◌, not, List, [], ◌∷◌, ◌++◌,
  Option, none, some, String, same, same_iff, same_refl, Bool-cases, length, leb, ltb, ◌==◌,
  if◌then◌else◌, if_either, Option-cases, inl, inr, sym, subst, ◌⊎◌, arith,
}
use codex_everywhere.Table.{exists, find, delete, modified, at, lookup, put}
use codex_everywhere.Table.Maps.{
  exists-append, exists-delete, exists-put, exists-put_none, exists-delete_key, lookup-put,
  lookup-delete_key, modified-delete-any, modified-append, found-key, modified-delete_found,
  modified-put-le, length-delete-le, length-put-le, length-put_there,
}
use codex_everywhere.Relay.{
  Route, Bucket, Generation, Authorization, Login, Pending, Tunnel, Options, Relay, Net, route_key,
  authorization_key, pending_key, pending_route, tunnel_route, has_serial, route_load, closing,
  sending, incoming, close_socket, Accepted, PublicHostProfile, Principal,
}
use codex_everywhere.Relay.Authorizations.{
  is_live, is_authorized, prune_found, prune, expire, refresh, authorization_of, is_none, authorize,
  is_past_generation,
}
use codex_everywhere.Relay.Register.{
  Capability, ProfileField, FirstMessage, register, connect, look_up, accept, unknown, Outcome,
  done, thrown, Secrets, register_on, may_register, register_capability, register_authorized,
  with_route, is_taken, without_previous, is_acceptable, profile_in, close_previous,
}
use codex_everywhere.Relay.Connect.{
  connect_socket, connect_tried, is_busy, waiting_for, with_pending, connect_to, connect_route,
  look_up_socket, look_up_tried, look_up_name, look_up_login, show_profile, is_open,
}
use codex_everywhere.Relay.Accept.{
  accept_capability, accept_pending, accept_owned, owns, set_up, fail_setup, fail_found,
  ready_setup, bridge_found, bridge_authorized, end_tunnel, end_found, remove_setup, remove_tunnel,
  without_pending, with_setup, with_tunnel, without_setup, without_tunnel, setup_of, close_peer,
  is_sendable,
}
use codex_everywhere.Relay.Steps.{
  Step, arrives, speaks, hesitates, leaves, waits_too_long, is_ready, fails, ends, expires,
  accept_socket, leave, leave_found, unregister, without_route, unregister_found, clear_browser,
  clear_found, clear_pending, close_listeners, time_out_pending, time_out_found, caught,
  route_message, step, run, is_socket_of, is_browser_of, capability_in, has_socket, shut, new_relay,
}

pub record IsKept (P : Relay → Type 0) (Holds : ℕ → Type 0) (Trusted : Capability → Type 0)
    : Type 0 where
  pub elsewhere :
      (r q : Relay)
      → q.options ≡ r.options
      → q.routes ≡ r.routes
      → q.authorizations ≡ r.authorizations
      → q.logins ≡ r.logins
      → q.pending ≡ r.pending
      → q.setups ≡ r.setups
      → q.tunnels ≡ r.tunnels
      → P r
      → P q
  pub refreshes : (j : String) (now : ℕ) (r : Relay) → Holds now → P r → P (refresh j now r)
  pub prunes : (j : String) (r : Relay) → P r → P (prune j r)
  pub renames : (c : Capability) (r : Relay) → P r → P (without_previous c r)
  pub registers :
      (s : ℕ) (c : Capability) (f : Option PublicHostProfile) (r q : Relay)
      → Trusted c
      → is_taken c.route_id c.login_id r.logins ≡ false
      → may_register c (authorization_of c.route_id r) (lookup route_key c.route_id r.routes) ≡ true
      → authorize c.route_id c.generation (without_previous c r) ≡ some q
      → P r
      → P (with_route s c f q)
  pub waits :
      (s : ℕ) (id j : String) (a : Authorization) (route : Route) (r : Relay)
      → authorization_of j r ≡ some a
      → is_busy j r ≡ false
      → P r
      → P (with_pending (waiting_for s id j route) r)
  pub sets_up :
      (s : ℕ) (p : Pending) (a : Authorization) (r : Relay)
      → lookup pending_key p.id r.pending ≡ some p
      → authorization_of p.route_id r ≡ some a
      → P r
      → P (with_setup s p (without_pending p.id r))
  pub bridges :
      (serial : ℕ) (t : Tunnel) (a : Authorization) (r : Relay)
      → find (has_serial serial) r.setups ≡ some t
      → authorization_of t.route_id r ≡ some a
      → P r
      → P (without_setup serial (with_tunnel t r))
  pub drops_pending : (id : String) (r : Relay) → P r → P (without_pending id r)
  pub drops_setup : (serial : ℕ) (r : Relay) → P r → P (without_setup serial r)
  pub drops_tunnel : (serial : ℕ) (r : Relay) → P r → P (without_tunnel serial r)
  pub unregisters :
      (s : ℕ) (route : Route) (r : Relay)
      → find (is_socket_of s) r.routes ≡ some route
      → P r
      → P (without_route route r)
