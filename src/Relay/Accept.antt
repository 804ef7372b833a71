-- ===== src/Relay/Accept.antt =====
-- `#acceptTunnel` of apps/relay/src/relay-server.ts, what follows when the Agent's socket answers or
-- fails, and the end of a bridged tunnel.
use codex_everywhere.Prelude.{
  ℕ, suc, Bool, false, ◌&&◌, ◌||◌, not, [], ◌∷◌, ◌++◌, Option, none, some, String, same, leb, ◌==◌,
  if◌then◌else◌,
}
use codex_everywhere.Table.{find, delete, at, lookup}
use codex_everywhere.Relay.{
  Authorization, Pending, Tunnel, tunnel_accepted, tunnel_ready, Relay, pending_key, has_serial,
  closing, sending,
}
use codex_everywhere.Relay.Authorizations.{prune, refresh, authorization_of}
use codex_everywhere.Relay.Register.{Capability, Outcome, done, thrown, same_option}
use codex_everywhere.Relay.Connect.{is_open}

abbrev pub owns : Option Authorization → Option String → Option String → Bool
owns none owner waiting = false
owns (some a) owner waiting = same_option a.generation.owner_id owner && same_option owner waiting

abbrev pub without_pending : String → Relay → Relay
without_pending id r = record r { pending = delete (at pending_key id) r.pending }

abbrev pub setup_of : ℕ → Pending → ℕ → Tunnel
setup_of s p serial = record {
  serial = serial;
  route_id = p.route_id;
  browser = p.browser;
  agent = s;
}

-- `#addPendingTunnelSetup`.
abbrev pub with_setup : ℕ → Pending → Relay → Relay
with_setup s p r = record r {
  setups = r.setups ++ setup_of s p r.next_serial ∷ [];
  next_serial = suc r.next_serial;
}

-- `#addActiveTunnel`.
abbrev pub with_tunnel : Tunnel → Relay → Relay
with_tunnel t r = record r { tunnels = r.tunnels ++ t ∷ [] }

abbrev pub without_setup : ℕ → Relay → Relay
without_setup serial r = record r { setups = delete (has_serial serial) r.setups }

abbrev pub without_tunnel : ℕ → Relay → Relay
without_tunnel serial r = record r { tunnels = delete (has_serial serial) r.tunnels }

abbrev pub set_up : ℕ → Pending → Relay → Outcome
set_up s p r =
    if is_open p.browser r then done (sending s tunnel_accepted (with_setup s p r)) else thrown r

abbrev pub accept_owned : ℕ → Option String → Pending → Relay → Outcome
accept_owned s owner p current =
    if owns (authorization_of p.route_id current) owner p.owner_id
    then set_up s p (without_pending p.id current)
    else thrown current

abbrev pub accept_pending : ℕ → Option Pending → Capability → ℕ → Relay → Outcome
accept_pending s none c now r = thrown r
accept_pending s (some p) c now r =
    if same p.route_id c.route_id
    then accept_owned s c.generation.owner_id p (refresh p.route_id now r)
    else thrown r

abbrev pub accept_capability : ℕ → String → ℕ → Option Capability → Relay → Outcome
accept_capability s id now none r = thrown r
accept_capability s id now (some c) r = accept_pending s (lookup pending_key id r.pending) c now r

-- `#removePendingTunnelSetup` and `#removeActiveTunnel`.
abbrev pub remove_setup : ℕ → Tunnel → Relay → Relay
remove_setup serial t r = prune t.route_id (without_setup serial r)

abbrev pub remove_tunnel : ℕ → Tunnel → Relay → Relay
remove_tunnel serial t r = prune t.route_id (without_tunnel serial r)

abbrev pub fail_found : ℕ → Option Tunnel → Relay → Relay
fail_found serial none r = r
fail_found serial (some t) r =
    closing t.agent 1008 "invalid tunnel readiness"
      (closing t.browser 1013 "agent tunnel setup failed" (remove_setup serial t r))

-- The Agent's socket is too late, sends no readiness or closes. The sockets of a tunnel that is no
-- longer set up have been closed with its route.
unfoldable pub fail_setup : ℕ → Relay → Relay
unfolding prune
fail_setup serial r = fail_found serial (find (has_serial serial) r.setups) r

abbrev pub bridge_authorized : Tunnel → ℕ → Option Authorization → Relay → Relay
bridge_authorized t serial none r = fail_setup serial r
bridge_authorized t serial (some a) r =
    if is_open t.browser r
    then sending t.browser tunnel_ready (remove_setup serial t (with_tunnel t r))
    else fail_setup serial r

abbrev pub bridge_found : ℕ → ℕ → Option Tunnel → Relay → Relay
bridge_found serial now none r = r
bridge_found serial now (some t) r =
    let current = refresh t.route_id now r in
    bridge_authorized t serial (authorization_of t.route_id current) current

-- The Agent's socket says that it is ready.
unfoldable pub ready_setup : ℕ → ℕ → Relay → Relay
unfolding fail_setup refresh prune
ready_setup serial now r = bridge_found serial now (find (has_serial serial) r.setups) r

-- The codes that `closePeer` passes on.
unfoldable pub is_sendable : ℕ → Bool
is_sendable code =
    leb 1000 code
      && (leb code 1014 && (not (code == 1004) && (not (code == 1005) && not (code == 1006))))
    || leb 3000 code && leb code 4999

abbrev pub close_peer : ℕ → ℕ → String → Relay → Relay
close_peer s code reason r =
    if is_sendable code then closing s code reason r else closing s 1000 "" r

abbrev pub end_found : ℕ → Bool → ℕ → String → Option Tunnel → Relay → Relay
end_found serial of_browser code reason none r = r
end_found serial of_browser code reason (some t) r =
    close_peer (if of_browser then t.agent else t.browser) code reason (remove_tunnel serial t r)

-- One of the two sockets of a bridged tunnel closes: `finish` and `closePeer` of `bridge`.
unfoldable pub end_tunnel : ℕ → Bool → ℕ → String → Relay → Relay
unfolding prune is_sendable
end_tunnel serial of_browser code reason r =
    end_found serial of_browser code reason (find (has_serial serial) r.tunnels) r
