-- ===== src/Relay/Bridge.antt =====
-- A bridged tunnel of apps/relay/src/relay-server.ts: `RelayBufferedByteBudget`, which all tunnels share,
-- `forward`, and the pings of `bridge`. A reservation is the closure that `reserve` gives, and is here as long
-- as it has not been called.
pub mod Budget
pub mod Silence
use codex_everywhere.Prelude.{
  ℕ, suc, ◌+◌, ◌-◌, Bool, true, false, ◌&&◌, ◌||◌, not, List, [], ◌∷◌, Option, none, some, ltb, leb,
  ◌==◌, if◌then◌else◌,
}
use codex_everywhere.Access.RateLimiter.{is_safe}

pub record Reservation : Type 0 where
  pub serial : ℕ
  pub tunnel : ℕ
  pub bytes : ℕ

pub record Buffers : Type 0 where
  pub maximum_bytes : ℕ
  pub max_buffered_bytes : ℕ
  pub reserved_bytes : ℕ
  pub reservations : List Reservation
  pub finished : ℕ → Bool
  pub next_serial : ℕ

-- What `forward` did with a frame.
pub data Forwarded : Type 0 where
  ignored too_slow over_budget sent_free : Forwarded
  sent : ℕ → Forwarded

-- The constructor; `none` where it throws.
unfoldable pub new_buffers : ℕ → ℕ → Option Buffers
new_buffers maximum buffered =
    if not (is_safe maximum) || leb maximum 0
    then none
    else some (record {
      maximum_bytes = maximum;
      max_buffered_bytes = buffered;
      reserved_bytes = 0;
      reservations = [];
      finished = λ _. false;
      next_serial = 0;
    })

abbrev pub reserve : ℕ → ℕ → Buffers → Buffers × Forwarded
reserve tunnel bytes b =
    if bytes == 0
    then (b, sent_free)
    else if not (is_safe bytes) || ltb b.maximum_bytes (b.reserved_bytes + bytes)
    then (b, over_budget)
    else (
      record b {
        reserved_bytes = b.reserved_bytes + bytes;
        reservations =
            record { serial = b.next_serial; tunnel = tunnel; bytes = bytes } ∷ b.reservations;
        next_serial = suc b.next_serial;
      },
      sent b.next_serial,
    )

-- `forward`, to a target that is open or not and has so many bytes buffered.
unfoldable pub forward : ℕ → ℕ → Bool → ℕ → Buffers → Buffers × Forwarded
forward tunnel bytes opened buffered b =
    if not opened
    then (b, ignored)
    else if ltb b.max_buffered_bytes (buffered + bytes)
    then (b, too_slow)
    else reserve tunnel bytes b

abbrev pub released : ℕ → Buffers → Buffers
released bytes b = record b { reserved_bytes = b.reserved_bytes - bytes }

unfoldable pub bytes_at : ℕ → List Reservation → ℕ
bytes_at serial [] = 0
bytes_at serial (x ∷ xs) = if x.serial == serial then x.bytes else bytes_at serial xs

unfoldable pub take_out : ℕ → List Reservation → List Reservation
take_out serial [] = []
take_out serial (x ∷ xs) =
    let rest = take_out serial xs in if x.serial == serial then xs else x ∷ rest

-- `settled`: a frame is sent, or could not be.
unfoldable pub settle : ℕ → Buffers → Buffers
unfolding bytes_at take_out
settle serial b = record b {
  reserved_bytes = b.reserved_bytes - bytes_at serial b.reservations;
  reservations = take_out serial b.reservations;
}

unfoldable pub bytes_of : ℕ → List Reservation → ℕ
bytes_of tunnel [] = 0
bytes_of tunnel (x ∷ xs) = (if x.tunnel == tunnel then x.bytes else 0) + bytes_of tunnel xs

unfoldable pub others : ℕ → List Reservation → List Reservation
others tunnel [] = []
others tunnel (x ∷ xs) =
    let rest = others tunnel xs in if x.tunnel == tunnel then rest else x ∷ rest

-- The first `finish` of a tunnel releases what its frames have reserved.
unfoldable pub finish : ℕ → Buffers → Buffers
unfolding bytes_of others
finish tunnel b = if b.finished tunnel then b else record b {
  reserved_bytes = b.reserved_bytes - bytes_of tunnel b.reservations;
  reservations = others tunnel b.reservations;
  finished = λ t. if t == tunnel then true else b.finished t;
}

-- The pings of one tunnel that have not been answered, and the sockets that were terminated.
pub record Heartbeat : Type 0 where
  pub miss_limit : ℕ
  pub left_unanswered : ℕ
  pub right_unanswered : ℕ
  pub left_terminated : Bool
  pub right_terminated : Bool

pub data Beat : Type 0 where
  -- The interval is over: whether the route is authorized, and which sockets are open.
  ticks : Bool → Bool → Bool → Beat
  left_pong right_pong : Beat

abbrev pub ping : Bool → ℕ → ℕ
ping opened n = if opened then n + 1 else n

unfoldable pub beat : Beat → Heartbeat → Heartbeat
beat (ticks authorized left_open right_open) h =
    let left_timed_out = leb h.miss_limit h.left_unanswered in
    let right_timed_out = leb h.miss_limit h.right_unanswered in
    if not authorized
    then h
    else if left_timed_out || right_timed_out
    then record h {
      left_terminated = h.left_terminated || left_timed_out;
      right_terminated = h.right_terminated || right_timed_out;
    }
    else record h {
      left_unanswered = ping left_open h.left_unanswered;
      right_unanswered = ping right_open h.right_unanswered;
    }
beat left_pong h = record h { left_unanswered = 0 }
beat right_pong h = record h { right_unanswered = 0 }
