-- ===== src/Relay/Bridge/Silence.antt =====
-- The pings of apps/relay/src/relay-server.ts to a peer that does not answer.
use codex_everywhere.Prelude.{ℕ, suc, ◌≡◌, Bool, true, ◌||◌, List, [], ◌∷◌, leb}
use codex_everywhere.Relay.Bridge.{Heartbeat, Beat, ticks, left_pong, right_pong, beat}

unfoldable pub run : List Beat → Heartbeat → Heartbeat
unfolding beat
run [] h = h
run (e ∷ es) h = run es (beat e h)

-- The left peer is open and silent while the route is authorized.
abbrev pub IsSilent : Beat → Type 0
IsSilent (ticks authorized left_open right_open) = (authorized ≡ true) × (left_open ≡ true)
IsSilent left_pong = ⊥
IsSilent right_pong = Unit

unfoldable pub intervals : List Beat → ℕ
intervals [] = 0
intervals (ticks authorized left_open right_open ∷ es) = suc (intervals es)
intervals (left_pong ∷ es) = intervals es
intervals (right_pong ∷ es) = intervals es

abbrev pub is_given_up : Heartbeat → Bool
is_given_up h = h.left_terminated || h.right_terminated

abbrev is_over : Heartbeat → Bool
is_over h = leb h.miss_limit h.left_unanswered || leb h.miss_limit h.right_unanswered
