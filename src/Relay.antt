-- ===== src/Relay.antt =====
-- `RelayServer` of apps/relay/src/relay-server.ts: its tables and its sockets. A socket, a tunnel
-- that is set up and a bridged tunnel are objects that the source compares with `===`: here each
-- has a number. `pending_setups` and `tunnels` are the sets of all routes in one list, so a route has
-- an entry in the source's map of sets when it has one in the list.
pub mod Rates
pub mod Authorizations
pub mod Register
pub mod Connect
pub mod Accept
pub mod Steps
pub mod Expiry
pub mod Kept
pub mod Within
pub mod Covered
pub mod HighWater
pub mod Logins
pub mod Bridge
use codex_everywhere.Prelude.{
  ℕ, suc, ◌+◌, ◌*◌, ◌-◌, Bool, true, false, List, [], ◌∷◌, Option, none, some, String, ◌==◌,
  if◌then◌else◌,
}
use codex_everywhere.Table.{at, modified}

pub data Principal : Type 0 where
  user host_admin : Principal

pub record PublicHostProfile : Type 0 where
  pub principal : Principal
  pub node_id : String
  pub user_id : String
  pub host_public_key : String
  pub host_fingerprint : String
  pub direct_endpoint : Option String

pub record Route : Type 0 where
  pub id : String
  pub socket : ℕ
  pub profile : Option PublicHostProfile
  pub login_id : Option String
  pub owner_id : Option String

-- `expires_at` is `none` for a capability with no bound.
pub record Generation : Type 0 where
  pub owner_id : Option String
  pub expires_at : Option ℕ
  pub issued_at : ℕ
  pub digest : String

pub record Authorization : Type 0 where
  pub route_id : String
  pub generation : Generation

pub record Login : Type 0 where
  pub id : String
  pub route_id : String

pub record Pending : Type 0 where
  pub id : String
  pub route_id : String
  pub owner_id : Option String
  pub browser : ℕ

pub record Tunnel : Type 0 where
  pub serial : ℕ
  pub route_id : String
  pub browser : ℕ
  pub agent : ℕ

pub record Bucket : Type 0 where
  pub address : String
  pub started_at : ℕ
  pub count : ℕ

pub record Accepted : Type 0 where
  pub socket : ℕ
  pub address : String

pub data Message : Type 0 where
  registered : String → Message
  incoming : String → Message
  profile_of : String → PublicHostProfile → Message
  tunnel_accepted tunnel_ready : Message

pub data Action : Type 0 where
  sends : ℕ → Message → Action
  closes : ℕ → ℕ → String → Action

-- The sockets that are open, and what was done to sockets, the latest first.
pub record Net : Type 0 where
  pub open_sockets : ℕ → Bool
  pub log : List Action

pub record Options : Type 0 where
  pub installation_id : String
  pub max_relay_sockets : ℕ
  pub max_sockets_per_address : ℕ
  pub max_pending_connections : ℕ
  pub max_connections_per_route : ℕ
  pub max_route_authorizations : ℕ
  pub max_connects_per_window : ℕ
  pub connect_window_ms : ℕ
  pub max_lookups_per_window : ℕ
  pub lookup_window_ms : ℕ
  pub max_address_rate_buckets : ℕ

-- The constants that stand for options that are not given.
abbrev pub default_options : String → Options
default_options installation = record {
  installation_id = installation;
  max_relay_sockets = 4096;
  max_sockets_per_address = 128;
  max_pending_connections = 1024;
  max_connections_per_route = 32;
  max_route_authorizations = 4096;
  max_connects_per_window = 120;
  connect_window_ms = 60000;
  max_lookups_per_window = 120;
  lookup_window_ms = 60000;
  max_address_rate_buckets = 4096;
}

pub record Relay : Type 0 where
  pub options : Options
  pub routes : List Route
  pub authorizations : List Authorization
  pub logins : List Login
  pub pending : List Pending
  pub setups : List Tunnel
  pub tunnels : List Tunnel
  pub sockets : List Accepted
  pub address_of : ℕ → String
  pub by_address : String → ℕ
  pub connects : List Bucket
  pub lookups : List Bucket
  pub net : Net
  pub next_socket : ℕ
  pub next_serial : ℕ

abbrev pub route_key : Route → String
route_key r = r.id

abbrev pub authorization_key : Authorization → String
authorization_key a = a.route_id

abbrev pub login_key : Login → String
login_key l = l.id

abbrev pub pending_key : Pending → String
pending_key p = p.id

abbrev pub pending_route : Pending → String
pending_route p = p.route_id

abbrev pub tunnel_route : Tunnel → String
tunnel_route t = t.route_id

abbrev pub bucket_key : Bucket → String
bucket_key b = b.address

abbrev pub has_serial : ℕ → Tunnel → Bool
has_serial n t = t.serial == n

-- `socket.close`, which has no effect on a socket that is closing.
abbrev pub close_socket : ℕ → ℕ → String → Net → Net
close_socket s code reason n = record {
  open_sockets = λ t. if t == s then false else n.open_sockets t;
  log = if n.open_sockets s then closes s code reason ∷ n.log else n.log;
}

abbrev pub send_to : ℕ → Message → Net → Net
send_to s m n = record n { log = sends s m ∷ n.log }

abbrev pub closing : ℕ → ℕ → String → Relay → Relay
closing s code reason r = record r { net = close_socket s code reason r.net }

abbrev pub sending : ℕ → Message → Relay → Relay
sending s m r = record r { net = send_to s m r.net }

-- How many connections a route has: `routeLoad`.
unfoldable pub route_load : String → Relay → ℕ
route_load k r =
    modified (at tunnel_route k) r.tunnels
    + (modified (at tunnel_route k) r.setups + modified (at pending_route k) r.pending)
