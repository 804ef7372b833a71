-- ===== src/Relay/Connect.antt =====
-- `#connect` and `#lookup` of apps/relay/src/relay-server.ts. The socket of a profile is closed when the send
-- has succeeded.
use codex_everywhere.Prelude.{
  ℕ, Bool, true, false, ◌||◌, not, List, Option, none, some, String, length, leb, if◌then◌else◌,
}
use codex_everywhere.Table.{lookup, put}
use codex_everywhere.Relay.{
  Principal, Route, Authorization, Login, Pending, Bucket, incoming, profile_of, Relay, route_key,
  login_key, pending_key, closing, sending, route_load,
}
use codex_everywhere.Relay.Rates.{consume_budget}
use codex_everywhere.Relay.Authorizations.{refresh, authorization_of}
use codex_everywhere.Relay.Register.{Outcome, done, thrown, Secrets}

abbrev pub is_open : ℕ → Relay → Bool
is_open s r = r.net.open_sockets s

abbrev pub is_busy : String → Relay → Bool
is_busy k r =
    leb r.options.max_pending_connections (length r.pending)
    || leb r.options.max_connections_per_route (route_load k r)

abbrev pub waiting_for : ℕ → String → String → Route → Pending
waiting_for s id k route = record { id = id; route_id = k; owner_id = route.owner_id; browser = s }

abbrev pub with_pending : Pending → Relay → Relay
with_pending p r = record r { pending = put pending_key p r.pending }

abbrev pub connect_to : ℕ → String → String → Option Authorization → Option Route → Relay → Relay
connect_to s id k (some a) (some route) r =
    if not (is_open route.socket r)
    then closing s 1013 "route offline" r
    else if is_busy k r
    then closing s 1013 "route busy" r
    else sending route.socket (incoming id) (with_pending (waiting_for s id k route) r)
connect_to s id k _ _ r = closing s 1013 "route offline" r

abbrev pub connect_route : ℕ → Option String → String → ℕ → Relay → Outcome
connect_route s none id now r = thrown r
connect_route s (some k) id now r =
    let current = refresh k now r in
    done
      (connect_to s id k (authorization_of k current) (lookup route_key k current.routes) current)

abbrev pub connect_tried : ℕ → Option String → String → ℕ → List Bucket × Bool → Relay → Outcome
connect_tried s route id now (buckets, false) r =
    done (closing s 1013 "connect rate exceeded" (record r { connects = buckets }))
connect_tried s route id now (buckets, true) r =
    connect_route s route id now (record r { connects = buckets })

-- `#connect`; `id` is the connection's random UUID.
unfoldable pub connect_socket : ℕ → Option String → String → ℕ → Relay → Outcome
unfolding refresh route_load
connect_socket s route id now r =
    connect_tried s route id now
      (consume_budget (r.address_of s) now r.options.max_connects_per_window
        r.options.connect_window_ms r.options.max_address_rate_buckets r.connects)
      r

abbrev pub first_some {ℓ} : {A : Type ℓ} → Option A → Option A → Option A
first_some (some a) o = some a
first_some none o = o

abbrev pub show_profile : ℕ → String → Option Authorization → Option Route → Relay → Relay
show_profile s k (some a) (some route) r = elim route.profile [
  | none ↦ closing s 1013 "login unavailable" r
  | some f ↦
      if is_open route.socket r
      then closing s 1000 "lookup complete" (sending s (profile_of k f) r)
      else closing s 1013 "login unavailable" r
]
show_profile s k _ _ r = closing s 1013 "login unavailable" r

abbrev pub look_up_login : ℕ → ℕ → Option Login → Relay → Relay
look_up_login s now none r = closing s 1013 "login unavailable" r
look_up_login s now (some l) r =
    let current = refresh l.route_id now r in
    show_profile s l.route_id (authorization_of l.route_id current)
      (lookup route_key l.route_id current.routes) current

abbrev pub look_up_name : Secrets → ℕ → Option Principal → Option String → ℕ → Relay → Outcome
look_up_name secrets s (some p) (some name) now r = done (
    look_up_login s now
      (first_some (lookup login_key (secrets.login_id_of p name) r.logins)
        (lookup login_key (secrets.legacy_login_id_of p name) r.logins))
      r)
look_up_name secrets s _ _ now r = thrown r

abbrev pub look_up_tried :
    Secrets → ℕ → Option String → Option Principal → ℕ → List Bucket × Bool → Relay → Outcome
look_up_tried secrets s name principal now (buckets, false) r =
    done (closing s 1013 "lookup rate exceeded" (record r { lookups = buckets }))
look_up_tried secrets s name principal now (buckets, true) r =
    look_up_name secrets s principal name now (record r { lookups = buckets })

-- `#lookup` with `#consumeLookup`.
unfoldable pub look_up_socket : Secrets → ℕ → Option String → Option Principal → ℕ → Relay → Outcome
unfolding refresh
look_up_socket secrets s name principal now r =
    look_up_tried secrets s name principal now
      (consume_budget (r.address_of s) now r.options.max_lookups_per_window
        r.options.lookup_window_ms r.options.max_address_rate_buckets r.lookups)
      r
