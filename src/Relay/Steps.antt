-- ===== src/Relay/Steps.antt =====
-- What happens to the relay of apps/relay/src/relay-server.ts: `#accept` with its listeners,
-- `#routeFirstMessage`, `#clearPending` with its timer, and the events of tunnels.
use codex_everywhere.Prelude.{
  ℕ, suc, ◌-◌, Bool, true, false, ◌||◌, List, [], ◌∷◌, Option, none, some, String, same, length,
  leb, ◌==◌, if◌then◌else◌,
}
use codex_everywhere.Table.{find, delete, at, lookup}
use codex_everywhere.Relay.{
  Route, Pending, Accepted, Options, Relay, Net, route_key, pending_key, closing,
}
use codex_everywhere.Relay.Authorizations.{prune, refresh, drop_login}
use codex_everywhere.Relay.Register.{
  Capability, FirstMessage, register, connect, look_up, accept, unknown, Outcome, done, thrown,
  Secrets, of_installation, register_capability, is_acceptable, register_on,
}
use codex_everywhere.Relay.Connect.{connect_socket, look_up_socket}
use codex_everywhere.Relay.Accept.{
  without_pending, accept_capability, fail_setup, ready_setup, end_tunnel,
}

abbrev pub has_socket : ℕ → Accepted → Bool
has_socket s a = a.socket == s

abbrev pub is_socket_of : ℕ → Route → Bool
is_socket_of s route = route.socket == s

abbrev pub is_browser_of : ℕ → Pending → Bool
is_browser_of s p = p.browser == s

abbrev pub opened : Relay → Net
opened r = record r.net {
  open_sockets = λ t. if t == r.next_socket then true else r.net.open_sockets t;
}

-- `#accept`: the number of the socket is the next one.
unfoldable pub accept_socket : String → Relay → Relay
accept_socket address r =
    let s = r.next_socket in
    let fresh = record r { net = opened r; next_socket = suc s } in
    if leb r.options.max_relay_sockets (length r.sockets)
      || leb r.options.max_sockets_per_address (r.by_address address)
    then closing s 1013 "relay busy" fresh
    else record fresh {
      sockets = record { socket = s; address = address } ∷ r.sockets;
      address_of = λ t. if t == s then address else r.address_of t;
      by_address = λ a. if same a address then suc (r.by_address a) else r.by_address a;
    }

abbrev pub leave_found : Option Accepted → Relay → Relay
leave_found none r = r
leave_found (some a) r = record r {
  sockets = delete (has_socket a.socket) r.sockets;
  by_address = λ b. if same b a.address then r.by_address b - 1 else r.by_address b;
}

abbrev pub without_route : Route → Relay → Relay
without_route route r = record r {
  routes = delete (at route_key route.id) r.routes;
  logins = drop_login route.id route.login_id r.logins;
}

abbrev pub unregister_found : Option Route → Relay → Relay
unregister_found none r = r
unregister_found (some route) r = prune route.id (without_route route r)

-- `#clearPending`.
abbrev pub clear_pending : Pending → Relay → Relay
clear_pending p r = prune p.route_id (without_pending p.id r)

abbrev pub clear_found : Option Pending → Relay → Relay
clear_found none r = r
clear_found (some p) r = clear_pending p r

-- The listeners of a socket that closes: those of `#accept`, `#register` and `#connect`. A socket has one
-- first message, so it has registered one route or is the browser of one connection.
unfoldable pub leave : ℕ → Relay → Relay
leave s r = leave_found (find (has_socket s) r.sockets) r

unfoldable pub unregister : ℕ → Relay → Relay
unfolding prune
unregister s r = unregister_found (find (is_socket_of s) r.routes) r

unfoldable pub clear_browser : ℕ → Relay → Relay
unfolding prune
clear_browser s r = clear_found (find (is_browser_of s) r.pending) r

abbrev pub shut : ℕ → Relay → Relay
shut s r = record r {
  net = record r.net { open_sockets = λ t. if t == s then false else r.net.open_sockets t };
}

unfoldable pub close_listeners : ℕ → Relay → Relay
unfolding leave unregister clear_browser
close_listeners s r = clear_browser s (unregister s (leave s (shut s r)))

abbrev pub time_out_found : Option Pending → Relay → Relay
time_out_found none r = r
time_out_found (some p) r =
    closing p.browser 1013 "agent did not accept connection" (clear_pending p r)

-- The timer of a connection that waits.
unfoldable pub time_out_pending : String → Relay → Relay
unfolding prune
time_out_pending id r = time_out_found (lookup pending_key id r.pending) r

abbrev pub caught : ℕ → Outcome → Relay
caught s (done r) = r
caught s (thrown r) = closing s 1008 "invalid relay handshake" r

pub data Step : Type 0 where
  arrives : String → Step
  speaks : ℕ → FirstMessage → String → ℕ → Step
  hesitates : ℕ → Step
  leaves : ℕ → Step
  waits_too_long : String → Step
  is_ready : ℕ → ℕ → Step
  fails : ℕ → Step
  ends : ℕ → Bool → ℕ → String → Step
  expires : String → ℕ → Step

module _ (secrets : Secrets) where
  -- `#verifyCapability`, of a field.
  abbrev pub capability_in : Option String → ℕ → Relay → Option Capability
  capability_in none now r = none
  capability_in (some text) now r =
      of_installation r.options.installation_id (secrets.capability_of text now)

  -- `#routeFirstMessage`; `id` is the random UUID that a connection takes.
  unfoldable pub route_message : ℕ → FirstMessage → String → ℕ → Relay → Outcome
  unfolding register_on is_acceptable connect_socket look_up_socket refresh
  route_message s (register c field) id now r =
      register_capability s field now (capability_in c now r) r
  route_message s (connect route) id now r = connect_socket s route id now r
  route_message s (look_up name principal) id now r = look_up_socket secrets s name principal now r
  route_message s (accept c none) id now r = thrown r
  route_message s (accept c (some k)) id now r = accept_capability s k now (capability_in c now r) r
  route_message s unknown id now r = thrown r

  unfoldable pub step : Step → Relay → Relay
  unfolding accept_socket close_listeners time_out_pending route_message ready_setup fail_setup
      end_tunnel refresh
  step (arrives address) r = accept_socket address r
  step (speaks s m id now) r = caught s (route_message s m id now r)
  step (hesitates s) r = closing s 1008 "invalid relay handshake" r
  step (leaves s) r = close_listeners s r
  step (waits_too_long id) r = time_out_pending id r
  step (is_ready serial now) r = ready_setup serial now r
  step (fails serial) r = fail_setup serial r
  step (ends serial of_browser code reason) r = end_tunnel serial of_browser code reason r
  -- The timer of an authorization, and `isAuthorized` of a bridged tunnel.
  step (expires route now) r = refresh route now r

  unfoldable pub run : List Step → Relay → Relay
  unfolding step
  run [] r = r
  run (e ∷ es) r = run es (step e r)

unfoldable pub new_relay : Options → Relay
new_relay o = record {
  options = o;
  routes = [];
  authorizations = [];
  logins = [];
  pending = [];
  setups = [];
  tunnels = [];
  sockets = [];
  address_of = λ _. "unknown";
  by_address = λ _. 0;
  connects = [];
  lookups = [];
  net = record { open_sockets = λ _. false; log = [] };
  next_socket = 0;
  next_serial = 0;
}
