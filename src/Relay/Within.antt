-- ===== src/Relay/Within.antt =====
-- The tables of apps/relay/src/relay-server.ts against the limits of its options.
use codex_everywhere.Prelude.{
  ℕ, ◌≤◌, ◌≡◌, ◌∙◌, refl, false, List, Option, none, some, String, Option-cases, length, if_either,
  Option-cases, inl, inr, arith,
}
use codex_everywhere.Table.{find, delete, modified, at, lookup}
use codex_everywhere.Table.Maps.{
  modified-delete-any, modified-append, modified-delete_found, modified-put-le, length-delete-le,
  length-put-le, length-put_there,
}
use codex_everywhere.Relay.{
  Route, Generation, Authorization, Pending, Tunnel, Options, Relay, authorization_key, pending_key,
  pending_route, tunnel_route, has_serial, route_load,
}
use codex_everywhere.Relay.Authorizations.{
  is_live, prune_found, prune, expire, refresh, authorization_of, authorize, is_past_generation,
}
use codex_everywhere.Relay.Register.{Secrets, without_previous}
use codex_everywhere.Relay.Connect.{is_busy, waiting_for, with_pending}
use codex_everywhere.Relay.Accept.{
  without_pending, with_setup, with_tunnel, without_setup, setup_of,
}
use codex_everywhere.Relay.Steps.{Step, run, new_relay}
use codex_everywhere.Relay.Kept.{IsKept}
use codex_everywhere.Relay.Kept.Runs.{run-kept}
use codex_everywhere.Relay.Kept.Runs.{any_steps}

module _ (k : String) (o : Options) where
  -- For one route.
  pub record IsWithin (r : Relay) : Type 0 where
    pub given : r.options ≡ o
    pub waiting : length r.pending ≤ o.max_pending_connections
    pub loaded : route_load k r ≤ o.max_connections_per_route
    pub authorized : length r.authorizations ≤ o.max_route_authorizations

  -- Fewer of each is within, too.
  fewer :
      (r q : Relay)
      → IsWithin r
      → q.options ≡ r.options
      → length q.pending ≤ length r.pending
      → route_load k q ≤ route_load k r
      → length q.authorizations ≤ length r.authorizations
      → IsWithin q
  fewer r q h a b c d = record {
    given = a ∙ h.given;
    waiting = omega (arith, h.waiting);
    loaded = omega (arith, h.loaded);
    authorized = omega (arith, h.authorized);
  }

  same_counts :
      (r q : Relay)
      → IsWithin r
      → q.options ≡ r.options
      → q.pending ≡ r.pending
      → q.setups ≡ r.setups
      → q.tunnels ≡ r.tunnels
      → q.authorizations ≡ r.authorizations
      → IsWithin q
  unfolding route_load
  same_counts r q h a b c d e = ground (arith, h)

  expire-IsWithin : (j : String) (r : Relay) → IsWithin r → IsWithin (expire j r)
  unfolding expire route_load
  expire-IsWithin j r h =
      fewer r (expire j r) h refl (length-delete-le (at pending_route j) r.pending)
        (omega (
          arith,
          modified-delete-any (at tunnel_route k) (at tunnel_route j) r.tunnels,
          modified-delete-any (at tunnel_route k) (at tunnel_route j) r.setups,
          modified-delete-any (at pending_route k) (at pending_route j) r.pending,
        ))
        (length-delete-le (at authorization_key j) r.authorizations)

  refresh-IsWithin : (j : String) (now : ℕ) (r : Relay) → IsWithin r → IsWithin (refresh j now r)
  unfolding refresh
  refresh-IsWithin j now r h =
      if_either IsWithin (is_past_generation now (lookup authorization_key j r.authorizations))
        (expire-IsWithin j r h) h

  prune_found-IsWithin :
      (j : String) (a : Option Authorization) (r : Relay)
      → IsWithin r
      → IsWithin (prune_found j a r)
  unfolding route_load
  prune_found-IsWithin j none r h = h
  prune_found-IsWithin j (some a) r h = go a.generation.expires_at
    where
      go :
          (t : Option ℕ)
          → IsWithin (elim t [
            | some _ ↦ r
            | none ↦ record r { authorizations = delete (at authorization_key j) r.authorizations }
          ])
      go (some _) = h
      go none = ground (arith, h, length-delete-le (at authorization_key j) r.authorizations)

  prune-IsWithin : (j : String) (r : Relay) → IsWithin r → IsWithin (prune j r)
  unfolding prune
  prune-IsWithin j r h =
      if_either IsWithin (is_live j r) h
        (prune_found-IsWithin j (lookup authorization_key j r.authorizations) r h)

  authorize-IsWithin :
      (j : String) (g : Generation) (r q : Relay)
      → IsWithin r
      → authorize j g r ≡ some q
      → IsWithin q
  unfolding authorize route_load
  authorize-IsWithin j g r q h e = elim (Option-cases (authorization_of j r)) [
    | inl absent ↦ ground (
      arith,
      h,
      length-put-le authorization_key (record { route_id = j; generation = g }) r.authorizations,
    )
    | inr (a, there) ↦ ground (
      arith,
      h,
      length-put_there authorization_key (record { route_id = j; generation = g }) a
          r.authorizations,
    )
  ]

  waits-IsWithin :
      (s : ℕ) (id j : String) (route : Route) (r : Relay)
      → is_busy j r ≡ false
      → IsWithin r
      → IsWithin (with_pending (waiting_for s id j route) r)
  unfolding route_load
  waits-IsWithin s id j route r free h = ground (
    arith,
    h,
    free,
    length-put-le pending_key (waiting_for s id j route) r.pending,
    modified-put-le pending_key (at pending_route k) (waiting_for s id j route) r.pending,
  )

  sets_up-IsWithin :
      (s : ℕ) (p : Pending) (r : Relay)
      → lookup pending_key p.id r.pending ≡ some p
      → IsWithin r
      → IsWithin (with_setup s p (without_pending p.id r))
  unfolding route_load
  sets_up-IsWithin s p r e h = ground (
    arith,
    h,
    modified-delete_found (at pending_route k) (at pending_key p.id) r.pending p,
    length-delete-le (at pending_key p.id) r.pending,
    modified-append (at tunnel_route k) r.setups (setup_of s p r.next_serial),
  )

  bridges-IsWithin :
      (serial : ℕ) (t : Tunnel) (r : Relay)
      → find (has_serial serial) r.setups ≡ some t
      → IsWithin r
      → IsWithin (without_setup serial (with_tunnel t r))
  unfolding route_load
  bridges-IsWithin serial t r e h = ground (
    arith,
    h,
    modified-append (at tunnel_route k) r.tunnels t,
    modified-delete_found (at tunnel_route k) (has_serial serial) r.setups t,
  )

  -- Each change of the tables.
  within : IsKept IsWithin (λ _. Unit) (λ _. Unit)
  unfolding route_load
  within = record {
    elsewhere = λ r q a b c d e f g h. ground (arith, h);
    refreshes = λ j now r n h. refresh-IsWithin j now r h;
    prunes = prune-IsWithin;
    renames = λ c r h. ground (arith, h);
    registers = λ s c f r q t free ok e h.
        same_counts q _
          (authorize-IsWithin c.route_id c.generation (without_previous c r) q
            (same_counts r _ h refl refl refl refl refl) e)
          refl refl refl refl refl;
    waits = λ s id j a route r e free h. waits-IsWithin s id j route r free h;
    sets_up = λ s p a r e f h. sets_up-IsWithin s p r e h;
    bridges = λ serial t a r e f h. bridges-IsWithin serial t r e h;
    drops_pending = λ id r h.
        fewer r _ h refl (length-delete-le (at pending_key id) r.pending)
          (omega (arith, modified-delete-any (at pending_route k) (at pending_key id) r.pending))
          (omega arith);
    drops_setup = λ serial r h.
        fewer r _ h refl (omega arith)
          (omega (arith, modified-delete-any (at tunnel_route k) (has_serial serial) r.setups))
          (omega arith);
    drops_tunnel = λ serial r h.
        fewer r _ h refl (omega arith)
          (omega (arith, modified-delete-any (at tunnel_route k) (has_serial serial) r.tunnels))
          (omega arith);
    unregisters = λ s route r e h. same_counts r _ h refl refl refl refl refl;
  }

  new-IsWithin : IsWithin (new_relay o)
  unfolding new_relay route_load modified
  new-IsWithin = ground arith

-- Whatever happens to the relay, no more connections wait than the limit, no route has more connections, waiting,
-- being set up and bridged together, than the limit, and no more authorizations are kept than the limit.
pub run-IsWithin_limits :
    (secrets : Secrets) (o : Options) (es : List Step) (k : String)
    → (let r = run secrets es (new_relay o) in
        (length r.pending ≤ o.max_pending_connections)
        × (route_load k r ≤ o.max_connections_per_route)
        × (length r.authorizations ≤ o.max_route_authorizations))
run-IsWithin_limits secrets o es k =
    let h =
      run-kept (IsWithin k o) (λ _. Unit) (λ _. Unit) (within k o) secrets (λ text now c e. tt) es
        (new_relay o) (any_steps es) (new-IsWithin k o) in
    (h.waiting, h.loaded, h.authorized)
