-- ===== src/Tests/Relay.antt =====
-- A relay on which a host registers and a browser connects, two frames on their way, and a silent peer.
use codex_everywhere.Prelude.{
  ℕ, ◌≤◌, ◌≡◌, refl, true, false, List, [], ◌∷◌, none, some, String, same, length, text_discrete,
  if◌then◌else◌, arith,
}
use codex_everywhere.Table.{find, delete, exists, modified, lookup, put}
use codex_everywhere.Relay.{
  user, PublicHostProfile, Options, default_options, Relay, route_key, route_load,
}
use codex_everywhere.Relay.Rates.{consume_budget}
use codex_everywhere.Relay.Authorizations.{is_authorized, authorization_of, is_none}
use codex_everywhere.Relay.Register.{Capability, Secrets, register, connect, accept, present}
use codex_everywhere.Relay.Steps
use codex_everywhere.Relay.Steps.{
  Step, arrives, speaks, leaves, is_ready, expires, new_relay, route_message, step, accept_socket,
  close_listeners,
}
use codex_everywhere.Relay.Within.{run-IsWithin_limits}
use codex_everywhere.Relay.Covered.{run-live_authorized}
use codex_everywhere.Relay.HighWater.{lasts_to, run-lasts_to}
use codex_everywhere.Relay.Logins.{has_login, run-has_login}
use codex_everywhere.Relay.Bridge.{Buffers, Heartbeat}
use codex_everywhere.Relay.Bridge.Budget
use codex_everywhere.Relay.Bridge.Budget.{forwards, settles, finishes}
use codex_everywhere.Relay.Bridge.Silence

abbrev host : Capability
host = record {
  route_id = "route";
  installation_id = some "home";
  principal = user;
  login_id = some "id of ann";
  generation = record {
    owner_id = some "owner";
    expires_at = some 900;
    issued_at = 1;
    digest = "d";
  };
}

abbrev secrets : Secrets
secrets = record {
  capability_of = λ text now. if same text "capability" then some host else none;
  login_id_of = λ p name. name;
  legacy_login_id_of = λ p name. name;
}

abbrev profile : PublicHostProfile
profile = record {
  principal = user;
  node_id = "node";
  user_id = "ann";
  host_public_key = "key";
  host_fingerprint = "print";
  direct_endpoint = none;
}

-- The host is socket 0, the browser socket 1, the tunnel's socket 2.
abbrev meeting : List Step
meeting =
    arrives "a"
    ∷ speaks 0 (register (some "capability") (present profile)) "" 10
    ∷ arrives "b"
    ∷ speaks 1 (connect (some "route")) "c1" 20
    ∷ arrives "a"
    ∷ speaks 2 (accept (some "capability") (some "c1")) "" 30
    ∷ is_ready 0 40
    ∷ []

abbrev home : Options
home = default_options "home"

bridged : length (Steps.run secrets meeting (new_relay home)).tunnels ≡ 1
unfolding Steps.run new_relay find text_discrete exists delete put modified consume_budget
bridged = refl

abbrev after : Relay
after = Steps.run secrets meeting (new_relay home)

run-IsWithin_limits_example :
    (length after.pending ≤ 1024)
    × (route_load "route" after ≤ 32)
    × (length after.authorizations ≤ 4096)
run-IsWithin_limits_example = run-IsWithin_limits secrets home meeting "route"

run-live_authorized_example : is_authorized "route" after ≡ true
unfolding Steps.run new_relay find text_discrete exists delete put modified consume_budget
run-live_authorized_example = run-live_authorized secrets home meeting "route" refl

run-has_login_example : has_login "id of ann" (lookup route_key "route" after.routes) ≡ true
unfolding Steps.run new_relay find text_discrete exists delete put modified consume_budget
run-has_login_example =
    run-has_login secrets home meeting "id of ann" (record { id = "id of ann"; route_id = "route" })
      refl

-- The host has gone offline, and a browser has failed to connect.
abbrev offline : List Step
offline = leaves 0 ∷ arrives "b" ∷ speaks 3 (connect (some "route")) "c2" 700 ∷ []

bounded :
    (text : String) (now : ℕ) (c : Capability)
    → secrets.capability_of text now ≡ some c
    → is_none c.generation.expires_at ≡ false
bounded text now c e = ground (arith, e)

run-lasts_to_example :
    lasts_to 800 (authorization_of "route" (Steps.run secrets offline after)) ≡ true
unfolding Steps.run new_relay find text_discrete exists delete put modified consume_budget
run-lasts_to_example =
    run-lasts_to secrets 800 "route" offline after bounded (tt, (tt, (omega arith, tt))) refl

abbrev buffers : Buffers
buffers = record {
  maximum_bytes = 100;
  max_buffered_bytes = 50;
  reserved_bytes = 0;
  reservations = [];
  finished = λ _. false;
  next_serial = 0;
}

abbrev frames : List Budget.Event
frames =
    forwards 1 40 true 0
    ∷ forwards 1 30 true 40
    ∷ forwards 2 50 true 0
    ∷ forwards 2 20 true 0
    ∷ settles 0
    ∷ []

abbrev fresh_beats : Heartbeat
fresh_beats = record {
  miss_limit = 2;
  left_unanswered = 0;
  right_unanswered = 0;
  left_terminated = false;
  right_terminated = false;
}
