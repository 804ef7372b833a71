-- ===== src/Relay/Covered.antt =====
-- The routes that apps/relay/src/relay-server.ts uses against their authorizations.
use codex_everywhere.Prelude.{
  ℕ, ◌≡◌, refl, true, false, List, Option, none, some, String, same, same_iff, same_refl,
  Bool-cases, if_either, inl, inr, subst, ◌⊎◌, arith,
}
use codex_everywhere.Table.{exists, delete, at, lookup}
use codex_everywhere.Table.Laws.{exists-lookup}
use codex_everywhere.Table.Maps.{
  exists-append, exists-delete, exists-put, exists-put_none, exists-delete_key,
}
use codex_everywhere.Relay.{
  Generation, Authorization, Options, Relay, route_key, authorization_key, pending_key,
  pending_route, tunnel_route, has_serial,
}
use codex_everywhere.Relay.Authorizations.{
  is_live, is_authorized, prune_found, prune, expire, refresh, authorization_of, authorize,
  is_past_generation,
}
use codex_everywhere.Relay.Register.{Secrets, route_of, without_previous}
use codex_everywhere.Relay.Connect.{waiting_for}
use codex_everywhere.Relay.Accept.{setup_of}
use codex_everywhere.Relay.Steps.{Step, run, new_relay}
use codex_everywhere.Relay.Kept.{IsKept}
use codex_everywhere.Relay.Kept.Runs.{any_steps, run-kept}

module _ (k : String) where
  -- A route with a registration, a waiting browser or a tunnel has an authorization.
  pub record IsCovered (r : Relay) : Type 0 where
    pub covered : (is_authorized k r ≡ true) ⊎ (is_live k r ≡ false)

  -- No more is live, and the authorizations are the same.
  less_live :
      (r q : Relay)
      → q.authorizations ≡ r.authorizations
      → (is_live k r ≡ false → is_live k q ≡ false)
      → IsCovered r
      → IsCovered q
  less_live r q e f h = elim h.covered [
    | inl a ↦ record { covered = inl (rw e a) }
    | inr d ↦ record { covered = inr (f d) }
  ]

  expire-IsCovered : (j : String) (r : Relay) → IsCovered r → IsCovered (expire j r)
  unfolding expire is_live
  expire-IsCovered j r h = record { covered = go h.covered }
    where
      go :
          (is_authorized k r ≡ true) ⊎ (is_live k r ≡ false)
          → (is_authorized k (expire j r) ≡ true) ⊎ (is_live k (expire j r) ≡ false)
      go x = elim (Bool-cases (same j k)) [
        | inl e ↦ inr (
            ground (
              arith,
              e,
              exists-delete_key route_key k j r.routes,
              exists-delete_key pending_route k j r.pending,
              exists-delete_key tunnel_route k j r.setups,
              exists-delete_key tunnel_route k j r.tunnels,
            ))
        | inr n ↦ elim x [
          | inl a ↦
              inl (ground (arith, a, n, exists-delete_key authorization_key k j r.authorizations))
          | inr d ↦ inr (
              ground (
                arith,
                d,
                n,
                exists-delete_key route_key k j r.routes,
                exists-delete_key pending_route k j r.pending,
                exists-delete_key tunnel_route k j r.setups,
                exists-delete_key tunnel_route k j r.tunnels,
              ))
        ]
      ]

  refresh-IsCovered : (j : String) (now : ℕ) (r : Relay) → IsCovered r → IsCovered (refresh j now r)
  unfolding refresh
  refresh-IsCovered j now r h =
      if_either IsCovered (is_past_generation now (lookup authorization_key j r.authorizations))
        (expire-IsCovered j r h) h

  dropped :
      (j : String) (r : Relay)
      → is_live j r ≡ false
      → IsCovered r
      → IsCovered (record r { authorizations = delete (at authorization_key j) r.authorizations })
  unfolding is_live
  dropped j r dead h = elim (Bool-cases (same j k)) [
    | inl e ↦ record {
      covered = inr (subst (λ (x : String). is_live x r ≡ false) ((same_iff j k).0 e) dead);
    }
    | inr n ↦ elim h.covered [
      | inl a ↦ record {
        covered =
            inl (ground (arith, a, n, exists-delete_key authorization_key k j r.authorizations));
      }
      | inr d ↦ record { covered = inr d }
    ]
  ]

  prune_found-IsCovered :
      (j : String) (a : Option Authorization) (r : Relay)
      → is_live j r ≡ false
      → IsCovered r
      → IsCovered (prune_found j a r)
  prune_found-IsCovered j none r dead h = h
  prune_found-IsCovered j (some a) r dead h =
      elim a.generation.expires_at
        as (λ (t : Option ℕ). IsCovered (elim t [
          | some _ ↦ r
          | none ↦ record r { authorizations = delete (at authorization_key j) r.authorizations }
        ])) [ some t ↦ h | none ↦ dropped j r dead h ]

  prune-IsCovered : (j : String) (r : Relay) → IsCovered r → IsCovered (prune j r)
  unfolding prune
  prune-IsCovered j r h = elim (Bool-cases (is_live j r)) [
    | inl live ↦ rw live h
    | inr dead ↦
        rw dead (prune_found-IsCovered j (lookup authorization_key j r.authorizations) r dead h)
  ]

  authorize-IsCovered :
      (j : String) (g : Generation) (r q : Relay)
      → IsCovered r
      → authorize j g r ≡ some q
      → IsCovered q × (is_authorized j q ≡ true)
  unfolding authorize is_live
  authorize-IsCovered j g r q h e = elim h.covered [
    | inl a ↦ (
      record {
        covered = inl (ground (arith, e, a, exists-put authorization_key k fresh r.authorizations));
      },
      ground (arith, e, exists-put authorization_key j fresh r.authorizations, same_refl j),
    )
    | inr d ↦ (
      record { covered = inr (ground (arith, e, d)) },
      ground (arith, e, exists-put authorization_key j fresh r.authorizations, same_refl j),
    )
  ]
    where
      fresh : Authorization
      fresh = record { route_id = j; generation = g }

  -- Something of a route comes with an authorization of the route.
  gains :
      (j : String) (r q : Relay)
      → q.authorizations ≡ r.authorizations
      → is_authorized j r ≡ true
      → (same j k ≡ false → is_live k r ≡ false → is_live k q ≡ false)
      → IsCovered r
      → IsCovered q
  gains j r q e a f h = elim (Bool-cases (same j k)) [
    | inl eq ↦ record { covered = inl (rw (e, ← (same_iff j k).0 eq) a) }
    | inr n ↦ less_live r q e (f n) h
  ]

  authorized-lookup :
      (j : String) (a : Authorization) (r : Relay)
      → authorization_of j r ≡ some a
      → is_authorized j r ≡ true
  authorized-lookup j a r e = ground (arith, e, exists-lookup authorization_key j r.authorizations)

  -- Each change of the tables.
  covering : IsKept IsCovered (λ _. Unit) (λ _. Unit)
  unfolding is_live
  covering = record {
    elsewhere =
        λ r q a b c d e f g h. less_live r q c (λ (x : is_live k r ≡ false). ground (arith, x)) h;
    refreshes = λ j now r n h. refresh-IsCovered j now r h;
    prunes = prune-IsCovered;
    renames = λ c r h. less_live r _ refl (λ x. x) h;
    registers = λ s c f r q t free ok e h.
        let both =
          authorize-IsCovered c.route_id c.generation (without_previous c r) q
            (less_live r _ refl (λ x. x) h) e in
        gains c.route_id q _ refl both.1
          (λ (n : same c.route_id k ≡ false) (x : is_live k q ≡ false).
            ground (arith, n, x, exists-put route_key k (route_of s c f) q.routes))
          both.0;
    waits = λ s id j a route r e free h.
        gains j r _ refl (authorized-lookup j a r e)
          (λ (n : same j k ≡ false) (x : is_live k r ≡ false). ground (
            arith,
            n,
            x,
            exists-put_none pending_key (at pending_route k) (waiting_for s id j route) r.pending,
          ))
          h;
    sets_up = λ s p a r e f h.
        gains p.route_id r _ refl (authorized-lookup p.route_id a r f)
          (λ (n : same p.route_id k ≡ false) (x : is_live k r ≡ false). ground (
            arith,
            n,
            x,
            exists-delete (at pending_route k) (at pending_key p.id) r.pending,
            exists-append (at tunnel_route k) r.setups (setup_of s p r.next_serial),
          ))
          h;
    bridges = λ serial t a r e f h.
        gains t.route_id r _ refl (authorized-lookup t.route_id a r f)
          (λ (n : same t.route_id k ≡ false) (x : is_live k r ≡ false). ground (
            arith,
            n,
            x,
            exists-delete (at tunnel_route k) (has_serial serial) r.setups,
            exists-append (at tunnel_route k) r.tunnels t,
          ))
          h;
    drops_pending = λ id r h.
        less_live r _ refl
          (λ (x : is_live k r ≡ false).
            ground (arith, x, exists-delete (at pending_route k) (at pending_key id) r.pending))
          h;
    drops_setup = λ serial r h.
        less_live r _ refl
          (λ (x : is_live k r ≡ false).
            ground (arith, x, exists-delete (at tunnel_route k) (has_serial serial) r.setups))
          h;
    drops_tunnel = λ serial r h.
        less_live r _ refl
          (λ (x : is_live k r ≡ false).
            ground (arith, x, exists-delete (at tunnel_route k) (has_serial serial) r.tunnels))
          h;
    unregisters = λ s route r e h.
        less_live r _ refl
          (λ (x : is_live k r ≡ false).
            ground (arith, x, exists-delete (at route_key k) (at route_key route.id) r.routes))
          h;
  }

  new-IsCovered : (o : Options) → IsCovered (new_relay o)
  unfolding new_relay is_live exists
  new-IsCovered o = record { covered = inr refl }

-- Whatever happens to the relay, a route that is registered, or for which a browser waits or a tunnel is set up
-- or bridged, has an authorization.
pub run-live_authorized :
    (secrets : Secrets) (o : Options) (es : List Step) (k : String)
    → is_live k (run secrets es (new_relay o)) ≡ true
    → is_authorized k (run secrets es (new_relay o)) ≡ true
run-live_authorized secrets o es k live =
    elim (run-kept (IsCovered k) (λ _. Unit) (λ _. Unit) (covering k) secrets (λ text now c e. tt)
      es (new_relay o) (any_steps es) (new-IsCovered k o)).covered [
        | inl a ↦ a
        | inr dead ↦ cc (live, dead)
      ]
