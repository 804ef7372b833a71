-- ===== src/Relay/Authorizations.antt =====
-- How long a route may be used, of apps/relay/src/relay-server.ts: `#authorizeRoute`,
-- `#currentRouteAuthorization`, `#expireRouteAuthorization`, `#pruneRouteAuthorization` and
-- `assertMonotonicRouteAuthorization`. An authorization and its timer are dropped together, so the timer that
-- fires is the one of the authorization that is there.
use codex_everywhere.Prelude.{
  ℕ, Bool, true, false, ◌&&◌, ◌||◌, not, List, [], ◌∷◌, Option, none, some, String, same, length,
  leb, ltb, ◌==◌, if◌then◌else◌,
}
use codex_everywhere.Table.{delete, exists, at, lookup, put}
use codex_everywhere.Relay.{
  Route, Generation, Authorization, Login, Pending, Tunnel, Net, Relay, route_key,
  authorization_key, login_key, pending_route, tunnel_route, close_socket,
}

abbrev pub is_authorized : String → Relay → Bool
is_authorized k r = exists (at authorization_key k) r.authorizations

-- A route, a waiting browser or a tunnel of the route is there.
unfoldable pub is_live : String → Relay → Bool
is_live k r =
    exists (at route_key k) r.routes
    || (exists (at tunnel_route k) r.setups
        || (exists (at tunnel_route k) r.tunnels || exists (at pending_route k) r.pending))

-- `#pruneRouteAuthorization`.
abbrev pub prune_found : String → Option Authorization → Relay → Relay
prune_found k none r = r
prune_found k (some a) r = elim a.generation.expires_at [
  | some _ ↦ r
  | none ↦ record r { authorizations = delete (at authorization_key k) r.authorizations }
]

unfoldable pub prune : String → Relay → Relay
unfolding is_live
prune k r = if is_live k r then r else prune_found k (lookup authorization_key k r.authorizations) r

abbrev pub expired_reason : String
expired_reason = "route authorization expired"

-- `closeForExpiredRouteAuthorization`.
abbrev pub expire_socket : ℕ → Net → Net
expire_socket s n = if n.open_sockets s then close_socket s 1008 expired_reason n else n

unfoldable pub expire_browsers : String → List Pending → Net → Net
expire_browsers k [] n = n
expire_browsers k (p ∷ ps) n =
    expire_browsers k ps (if at pending_route k p then expire_socket p.browser n else n)

unfoldable pub expire_tunnels : String → List Tunnel → Net → Net
expire_tunnels k [] n = n
expire_tunnels k (t ∷ ts) n =
    expire_tunnels k ts
      (if at tunnel_route k t then expire_socket t.agent (expire_socket t.browser n) else n)

abbrev pub expire_route : Option Route → Net → Net
expire_route none n = n
expire_route (some route) n = expire_socket route.socket n

abbrev pub leads_to : String → Option Login → Bool
leads_to k none = false
leads_to k (some l) = same l.route_id k

-- A login is deleted if it leads to the route.
abbrev pub drop_login : String → Option String → List Login → List Login
drop_login k none ls = ls
drop_login k (some l) ls =
    if leads_to k (lookup login_key l ls) then delete (at login_key l) ls else ls

abbrev pub login_of : Option Route → Option String
login_of none = none
login_of (some route) = route.login_id

-- `#expireRouteAuthorization`, for the authorization that is there.
unfoldable pub expire : String → Relay → Relay
unfolding expire_browsers expire_tunnels
expire k r =
    let route = lookup route_key k r.routes in
    record r {
      authorizations = delete (at authorization_key k) r.authorizations;
      routes = delete (at route_key k) r.routes;
      logins = drop_login k (login_of route) r.logins;
      pending = delete (at pending_route k) r.pending;
      setups = delete (at tunnel_route k) r.setups;
      tunnels = delete (at tunnel_route k) r.tunnels;
      net = expire_route route (
          expire_tunnels k r.tunnels
            (expire_tunnels k r.setups (expire_browsers k r.pending r.net)));
    }

abbrev pub is_past : ℕ → Option ℕ → Bool
is_past now none = false
is_past now (some t) = leb t now

abbrev pub is_past_generation : ℕ → Option Authorization → Bool
is_past_generation now none = false
is_past_generation now (some a) = is_past now a.generation.expires_at

-- `#currentRouteAuthorization`: the relay after it; its answer is the authorization that is then there.
-- It is also what the timer of an authorization does.
unfoldable pub refresh : String → ℕ → Relay → Relay
unfolding expire
refresh k now r =
    if is_past_generation now (lookup authorization_key k r.authorizations) then expire k r else r

abbrev pub authorization_of : String → Relay → Option Authorization
authorization_of k r = lookup authorization_key k r.authorizations

abbrev pub is_none {ℓ} : {A : Type ℓ} → Option A → Bool
is_none none = true
is_none (some _) = false

-- `#authorizeRoute`; `none` where it throws.
unfoldable pub authorize : String → Generation → Relay → Option Relay
authorize k g r =
    if is_none (authorization_of k r)
      && leb r.options.max_route_authorizations (length r.authorizations)
    then none
    else some (record r {
      authorizations =
          put authorization_key (record { route_id = k; generation = g }) r.authorizations;
    })

-- `undefined` is later than every time.
abbrev pub earlier : Option ℕ → Option ℕ → Bool
earlier none _ = false
earlier (some a) none = true
earlier (some a) (some b) = ltb a b

-- `assertMonotonicRouteAuthorization`: whether it lets the candidate replace the current one.
unfoldable pub is_monotonic : Generation → Generation → Bool
is_monotonic current candidate =
    if earlier candidate.expires_at current.expires_at
    then false
    else if earlier current.expires_at candidate.expires_at
    then true
    else if ltb candidate.issued_at current.issued_at
    then false
    else not
        (candidate.issued_at == current.issued_at && not (same candidate.digest current.digest))
