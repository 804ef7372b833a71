-- ===== src/Relay/Logins.antt =====
-- The table of logins of apps/relay/src/relay-server.ts against the routes.
use codex_everywhere.Prelude.{
  ℕ, ◌≤◌, ◌≡◌, refl, Bool, true, false, List, Option, none, some, String, same, sym, subst,
  Option-cases, same_refl, Bool-cases, if◌then◌else◌, if_either, Option-cases, inl, inr, sym, subst,
  arith,
}
use codex_everywhere.Table.{find, delete, modified, at, lookup, put}
use codex_everywhere.Table.Maps.{
  lookup-put, lookup-delete_key, modified-delete-any, found-lookup, modified-put_key,
}
use codex_everywhere.Relay.{
  Route, Generation, Authorization, Login, Options, Relay, route_key, login_key, authorization_key,
  PublicHostProfile,
}
use codex_everywhere.Relay.Authorizations.{
  is_live, prune_found, prune, expire, refresh, authorize, is_past_generation, drop_login, login_of,
}
use codex_everywhere.Relay.Register.{
  Capability, Secrets, route_of, drop_previous, put_login, same_option, with_route,
  without_previous,
}
use codex_everywhere.Relay.Steps.{Step, run, is_socket_of, new_relay}
use codex_everywhere.Relay.Kept.{IsKept}
use codex_everywhere.Relay.Kept.Runs.{any_steps, run-kept}

-- The route is there and was registered with the login.
abbrev pub has_login : String → Option Route → Bool
has_login l none = false
has_login l (some route) = same_option route.login_id (some l)

abbrev led_to : String → List Route → Option Login → Bool
led_to l routes none = true
led_to l routes (some x) = has_login l (lookup route_key x.route_id routes)

authorize-routes :
    (j : String) (g : Generation) (r q : Relay) → authorize j g r ≡ some q → q.routes ≡ r.routes
unfolding authorize
authorize-routes j g r q e = ground (arith, e)

authorize-logins :
    (j : String) (g : Generation) (r q : Relay) → authorize j g r ≡ some q → q.logins ≡ r.logins
unfolding authorize
authorize-logins j g r q e = ground (arith, e)

module _ (l : String) where
  record IsLed (r : Relay) : Type 0 where
    led : led_to l r.routes (lookup login_key l r.logins) ≡ true
    keyed : (k : String) → modified (at route_key k) r.routes ≤ 1

  -- A route goes with its login.
  led-drop :
      (j : String) (route : Option Route) (routes : List Route) (logins : List Login)
      → lookup route_key j routes ≡ route
      → led_to l routes (lookup login_key l logins) ≡ true
      → led_to l
          (delete (at route_key j) routes)
          (lookup login_key l (drop_login j (login_of route) logins))
        ≡ true
  led-drop j none routes logins e h = elim (Option-cases (lookup login_key l logins)) [
    | inl absent ↦ ground (arith, absent)
    | inr (x, there) ↦ ground (arith, h, e, there, lookup-delete_key route_key x.route_id j routes)
  ]
  led-drop j (some route) routes logins e h = go route.login_id refl
    where
      go :
          (m : Option String)
          → route.login_id ≡ m
          → led_to l (delete (at route_key j) routes) (lookup login_key l (drop_login j m logins))
            ≡ true
      go none q = elim (Option-cases (lookup login_key l logins)) [
        | inl absent ↦ ground (arith, absent)
        | inr (x, there) ↦
            ground (arith, h, e, q, there, lookup-delete_key route_key x.route_id j routes)
      ]
      go (some m) q = elim (Option-cases (lookup login_key l logins)) [
        | inl absent ↦ ground (arith, absent, lookup-delete_key login_key l m logins)
        | inr (x, there) ↦ ground (
          arith,
          h,
          e,
          q,
          there,
          lookup-delete_key route_key x.route_id j routes,
          lookup-delete_key login_key l m logins,
        )
      ]

  keyed-delete :
      (q : Route → Bool) (routes : List Route)
      → ((k : String) → modified (at route_key k) routes ≤ 1)
      → (k : String) → modified (at route_key k) (delete q routes) ≤ 1
  keyed-delete q routes h k = omega (arith, h k, modified-delete-any (at route_key k) q routes)

  keyed-put :
      (x : Route) (routes : List Route)
      → ((k : String) → modified (at route_key k) routes ≤ 1)
      → (k : String) → modified (at route_key k) (put route_key x routes) ≤ 1
  keyed-put x routes h k = ground (arith, h k, modified-put_key route_key k x routes)

  expire-IsLed : (j : String) (r : Relay) → IsLed r → IsLed (expire j r)
  unfolding expire
  expire-IsLed j r h = record {
    led = led-drop j (lookup route_key j r.routes) r.routes r.logins refl h.led;
    keyed = keyed-delete (at route_key j) r.routes h.keyed;
  }

  refresh-IsLed : (j : String) (now : ℕ) (r : Relay) → IsLed r → IsLed (refresh j now r)
  unfolding refresh
  refresh-IsLed j now r h =
      if_either IsLed (is_past_generation now (lookup authorization_key j r.authorizations))
        (expire-IsLed j r h) h

  same_routes : (r q : Relay) → q.routes ≡ r.routes → q.logins ≡ r.logins → IsLed r → IsLed q
  same_routes r q e f h = record {
    led = rw (e, f) h.led;
    keyed = λ k. subst (λ (x : List Route). modified (at route_key k) x ≤ 1) (sym e) (h.keyed k);
  }

  prune-IsLed : (j : String) (r : Relay) → IsLed r → IsLed (prune j r)
  unfolding prune
  prune-IsLed j r h =
      if_either IsLed (is_live j r) h (go (lookup authorization_key j r.authorizations))
    where
      ends :
          (a : Authorization) (t : Option ℕ)
          → IsLed (elim t [
            | some _ ↦ r
            | none ↦ record r { authorizations = delete (at authorization_key j) r.authorizations }
          ])
      ends a none = same_routes r _ refl refl h
      ends a (some t) = h

      go : (a : Option Authorization) → IsLed (prune_found j a r)
      go none = h
      go (some a) = ends a a.generation.expires_at

  -- What is dropped is this login's entry, or another's.
  led-previous :
      (j : String) (m : Option String) (p : Option Route) (routes : List Route)
      (logins : List Login)
      → led_to l routes (lookup login_key l logins) ≡ true
      → led_to l routes (lookup login_key l (drop_previous j m p logins)) ≡ true
  led-previous j m none routes logins h = h
  led-previous j m (some p) routes logins h =
      if_either (λ (x : List Login). led_to l routes (lookup login_key l x) ≡ true)
        (same_option p.login_id m) h (go p.login_id)
    where
      go : (n : Option String) → led_to l routes (lookup login_key l (drop_login j n logins)) ≡ true
      go none = h
      go (some n) = ground (arith, h, lookup-delete_key login_key l n logins)

  -- A registration with another login takes this one from its route.
  led-left :
      (j : String) (new : Route) (routes : List Route) (logins : List Login)
      → new.id ≡ j
      → same_option new.login_id (some l) ≡ false
      → led_to l routes (lookup login_key l logins) ≡ true
      → led_to l
          (put route_key new routes)
          (lookup login_key l (drop_previous j new.login_id (lookup route_key j routes) logins))
        ≡ true
  led-left j new routes logins named other h = go (lookup route_key j routes) refl
    where
      go :
          (p : Option Route)
          → lookup route_key j routes ≡ p
          → led_to l
              (put route_key new routes)
              (lookup login_key l (drop_previous j new.login_id p logins))
            ≡ true
      go none e = elim (Option-cases (lookup login_key l logins)) [
        | inl absent ↦ ground (arith, absent)
        | inr (x, there) ↦
            ground (arith, h, e, named, there, lookup-put route_key x.route_id new routes)
      ]
      go (some p) e = elim (Option-cases (lookup login_key l logins)) [
        | inl absent ↦ kept p.login_id absent
        | inr (x, there) ↦ moved p e x there p.login_id refl
      ]
        where
          kept :
              (n : Option String)
              → lookup login_key l logins ≡ none
              → led_to l (put route_key new routes) (
                  lookup login_key l
                    (if same_option n new.login_id then logins else drop_login j n logins))
                ≡ true
          kept none absent = ground (arith, absent)
          kept (some n) absent = ground (arith, absent, lookup-delete_key login_key l n logins)

          moved :
              (p : Route)
              → lookup route_key j routes ≡ some p
              → (x : Login) → lookup login_key l logins ≡ some x
              → (n : Option String) → p.login_id ≡ n
              → led_to l (put route_key new routes) (
                  lookup login_key l
                    (if same_option n new.login_id then logins else drop_login j n logins))
                ≡ true
          moved p e x there none q =
              ground (arith, h, e, q, named, there, lookup-put route_key x.route_id new routes)
          moved p e x there (some n) q = ground (
            arith,
            h,
            e,
            q,
            named,
            there,
            other,
            lookup-put route_key x.route_id new routes,
            lookup-delete_key login_key l n logins,
          )

  -- Its own login leads to the route.
  led-put :
      (new : Route) (m : Option String) (routes : List Route) (logins : List Login)
      → new.login_id ≡ m
      → (same_option m (some l) ≡ false
          → led_to l (put route_key new routes) (lookup login_key l logins) ≡ true)
      → led_to l (put route_key new routes) (lookup login_key l (put_login new.id m logins)) ≡ true
  led-put new none routes logins e h = h refl
  led-put new (some m) routes logins e h = elim (Bool-cases (same m l)) [
    | inl mine ↦ ground (
      arith,
      e,
      mine,
      same_refl new.id,
      lookup-put login_key l (record { id = m; route_id = new.id }) logins,
      lookup-put route_key new.id new routes,
    )
    | inr other ↦ ground (
      arith,
      e,
      other,
      h other,
      lookup-put login_key l (record { id = m; route_id = new.id }) logins,
    )
  ]

  registers-IsLed :
      (s : ℕ) (c : Capability) (f : Option PublicHostProfile) (r q : Relay)
      → authorize c.route_id c.generation (without_previous c r) ≡ some q
      → IsLed r
      → IsLed (with_route s c f q)
  registers-IsLed s c f r q e h = record {
    led =
        rw (routes, logins)
          (led-put new c.login_id r.routes (without_previous c r).logins refl
            (λ other. led-left c.route_id new r.routes r.logins refl other h.led));
    keyed = λ k. rw routes (keyed-put new r.routes h.keyed k);
  }
    where
      new : Route
      new = route_of s c f

      routes : q.routes ≡ r.routes
      routes = authorize-routes c.route_id c.generation (without_previous c r) q e

      logins : q.logins ≡ (without_previous c r).logins
      logins = authorize-logins c.route_id c.generation (without_previous c r) q e

  leading : IsKept IsLed (λ _. Unit) (λ _. Unit)
  leading = record {
    elsewhere = λ r q a b c d e f g h. same_routes r q b d h;
    refreshes = λ j now r n h. refresh-IsLed j now r h;
    prunes = prune-IsLed;
    renames = λ c r h. record {
      led =
          led-previous c.route_id c.login_id (lookup route_key c.route_id r.routes) r.routes
            r.logins h.led;
      keyed = h.keyed;
    };
    registers = λ s c f r q t free ok e h. registers-IsLed s c f r q e h;
    waits = λ s id j a route r e free h. same_routes r _ refl refl h;
    sets_up = λ s p a r e f h. same_routes r _ refl refl h;
    bridges = λ serial t a r e f h. same_routes r _ refl refl h;
    drops_pending = λ id r h. same_routes r _ refl refl h;
    drops_setup = λ serial r h. same_routes r _ refl refl h;
    drops_tunnel = λ serial r h. same_routes r _ refl refl h;
    unregisters = λ s route r e h. record {
      led =
          led-drop route.id (some route) r.routes r.logins
            (found-lookup route_key (is_socket_of s) route r.routes (h.keyed route.id) e) h.led;
      keyed = keyed-delete (at route_key route.id) r.routes h.keyed;
    };
  }

  new-IsLed : (o : Options) → IsLed (new_relay o)
  unfolding new_relay modified find
  new-IsLed o = record { led = refl; keyed = λ k. omega arith }

-- Whatever happens to the relay, a login leads to a route that is there and was registered with that login.
pub run-has_login :
    (secrets : Secrets) (o : Options) (es : List Step) (l : String) (x : Login)
    → lookup login_key l (run secrets es (new_relay o)).logins ≡ some x
    → has_login l (lookup route_key x.route_id (run secrets es (new_relay o)).routes) ≡ true
run-has_login secrets o es l x e =
    subst (λ (y : Option Login). led_to l (run secrets es (new_relay o)).routes y ≡ true) e
      (run-kept (IsLed l) (λ _. Unit) (λ _. Unit) (leading l) secrets (λ text now c e. tt) es
        (new_relay o) (any_steps es) (new-IsLed l o)).led
