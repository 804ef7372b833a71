-- ===== src/Relay/Register.antt =====
-- What a first message holds, and `#register` of apps/relay/src/relay-server.ts. What a capability says (packages/protocol/src/relay-capability.ts) and the keyed hashes
-- of login names are parameters; a field of a message that is no text is `none`, and `profile` is what
-- `parsePublicHostProfile` makes of the field.
use codex_everywhere.Prelude.{
  ℕ, Bool, true, false, ◌&&◌, not, List, Option, none, some, String, same, ◌==◌, if◌then◌else◌,
}
use codex_everywhere.Table.{lookup, put}
use codex_everywhere.Relay.{
  Principal, user, host_admin, PublicHostProfile, Route, Generation, Authorization, Login,
  registered, Relay, route_key, login_key, closing, sending,
}
use codex_everywhere.Relay.Authorizations.{
  refresh, authorization_of, is_none, authorize, is_monotonic, drop_login,
}

pub record Capability : Type 0 where
  pub route_id : String
  -- For the versions 3 and 4.
  pub installation_id : Option String
  pub principal : Principal
  pub login_id : Option String
  pub generation : Generation

pub data ProfileField : Type 0 where
  absent invalid : ProfileField
  present : PublicHostProfile → ProfileField

pub data FirstMessage : Type 0 where
  register : Option String → ProfileField → FirstMessage
  connect : Option String → FirstMessage
  look_up : Option String → Option Principal → FirstMessage
  accept : Option String → Option String → FirstMessage
  unknown : FirstMessage

-- A handler that throws keeps what it has changed.
pub data Outcome : Type 0 where
  done : Relay → Outcome
  thrown : Relay → Outcome

pub record Secrets : Type 0 where
  pub capability_of : String → ℕ → Option Capability
  pub login_id_of : Principal → String → String
  pub legacy_login_id_of : Principal → String → String

abbrev pub same_option : Option String → Option String → Bool
same_option none none = true
same_option (some a) (some b) = same a b
same_option _ _ = false

abbrev pub same_principal : Principal → Principal → Bool
same_principal user user = true
same_principal host_admin host_admin = true
same_principal _ _ = false

abbrev pub of_installation : String → Option Capability → Option Capability
of_installation i none = none
of_installation i (some c) = elim c.installation_id [
  | none ↦ some c
  | some j ↦ if same j i then some c else none
]

-- `parsePublicHostProfile` where it does not throw.
abbrev pub profile_in : ProfileField → Option PublicHostProfile
profile_in (present p) = some p
profile_in _ = none

abbrev pub is_invalid : ProfileField → Bool
is_invalid invalid = true
is_invalid _ = false

abbrev pub fits : Principal → Option PublicHostProfile → Bool
fits p none = true
fits p (some f) = same_principal f.principal p

abbrev pub is_taken : String → Option String → List Login → Bool
is_taken k none ls = false
is_taken k (some l) ls = elim (lookup login_key l ls) [
  | none ↦ false
  | some x ↦ not (same x.route_id k)
]

-- The checks on a capability and a profile that need no authorization.
unfoldable pub is_acceptable : Capability → ProfileField → List Login → Bool
is_acceptable c field ls =
    not (is_invalid field)
    && (not (not (is_none c.login_id) && is_none (profile_in field))
        && (fits c.principal (profile_in field) && not (is_taken c.route_id c.login_id ls)))

abbrev pub owner_of_route : Option Route → Option String
owner_of_route none = none
owner_of_route (some p) = p.owner_id

abbrev pub owner_now : Option Authorization → Option Route → Option String
owner_now none p = owner_of_route p
owner_now (some a) p = elim a.generation.owner_id [ some o ↦ some o | none ↦ owner_of_route p ]

abbrev pub may_replace : Option Authorization → Generation → Bool
may_replace none g = true
may_replace (some a) g = is_monotonic a.generation g

abbrev pub is_owned : Option Authorization → Option Route → Option String → Bool
is_owned none none owner = true
is_owned a p owner = same_option (owner_now a p) owner

-- The login of the route's previous registration, when it changes.
abbrev pub drop_previous : String → Option String → Option Route → List Login → List Login
drop_previous k login none ls = ls
drop_previous k login (some p) ls =
    if same_option p.login_id login then ls else drop_login k p.login_id ls

abbrev pub put_login : String → Option String → List Login → List Login
put_login k none ls = ls
put_login k (some l) ls = put login_key (record { id = l; route_id = k }) ls

abbrev pub close_previous : ℕ → Option Route → Relay → Relay
close_previous s none r = r
close_previous s (some p) r =
    if p.socket == s then r else closing p.socket 1008 "route registered elsewhere" r

abbrev pub route_of : ℕ → Capability → Option PublicHostProfile → Route
route_of s c profile = record {
  id = c.route_id;
  socket = s;
  profile = profile;
  login_id = c.login_id;
  owner_id = c.generation.owner_id;
}

abbrev pub with_route : ℕ → Capability → Option PublicHostProfile → Relay → Relay
with_route s c profile r = record r {
  routes = put route_key (route_of s c profile) r.routes;
  logins = put_login c.route_id c.login_id r.logins;
}

abbrev pub register_authorized :
    ℕ → Capability → Option PublicHostProfile → Option Route → Option Relay → Relay → Outcome
register_authorized s c profile previous none r = thrown r
register_authorized s c profile previous (some r) old =
    done (sending s (registered c.route_id) (close_previous s previous (with_route s c profile r)))

abbrev pub without_previous : Capability → Relay → Relay
without_previous c r = record r {
  logins = drop_previous c.route_id c.login_id (lookup route_key c.route_id r.routes) r.logins;
}

abbrev pub may_register : Capability → Option Authorization → Option Route → Bool
may_register c current previous =
    is_owned current previous c.generation.owner_id && may_replace current c.generation

unfoldable pub register_on : ℕ → Capability → Option PublicHostProfile → Relay → Outcome
unfolding authorize is_monotonic
register_on s c profile r =
    let previous = lookup route_key c.route_id r.routes in
    let current = authorization_of c.route_id r in
    if may_register c current previous
    then register_authorized s c profile previous
        (authorize c.route_id c.generation (without_previous c r)) (without_previous c r)
    else thrown r

abbrev pub register_capability : ℕ → ProfileField → ℕ → Option Capability → Relay → Outcome
register_capability s field now none r = thrown r
register_capability s field now (some c) r =
    if is_acceptable c field r.logins
    then register_on s c (profile_in field) (refresh c.route_id now r)
    else thrown r
