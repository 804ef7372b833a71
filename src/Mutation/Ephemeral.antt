-- ===== src/Mutation/Ephemeral.antt =====
-- `#runEphemeral` of `AgentMutationMiddleware` in apps/agent/src/v2/services/mutation-middleware.ts:
-- results that are kept in memory only, for a short time and for a bounded number of operation keys, the
-- least recently used first to go. A JavaScript Map is the list of its entries in order of insertion.
-- The identity of an entry, which the source compares with `===`, is a number. The promise of an entry
-- is settled at any later time.
pub mod Bound
pub mod Kept
pub mod Joins
use codex_everywhere.Prelude.{
  ℕ, suc, ◌+◌, ◌*◌, Bool, true, false, ◌&&◌, List, [], ◌∷◌, ◌++◌, Option, none, some, String, same,
  leb, ◌==◌, length, if◌then◌else◌,
}
use codex_everywhere.Table.{delete, at, lookup}
use codex_everywhere.Mutation.Receipts.{StoredOutcome, past}
use codex_everywhere.Mutation.Durable.{Answer, unwrap_outcome}

-- 5 minutes.
abbrev pub ephemeral_result_ttl_ms : ℕ
ephemeral_result_ttl_ms = 5 * 60000

abbrev pub default_ephemeral_limit : ℕ
default_ephemeral_limit = 128

pub record Entry : Type 0 where
  pub key : String
  pub fingerprint : String
  pub serial : ℕ
  pub outcome : Option StoredOutcome
  pub expires_at : Option ℕ

pub record Cache : Type 0 where
  pub limit : ℕ
  pub entries : List Entry
  pub next_serial : ℕ
  pub executed : List String

-- What a caller gets: the promise of an entry, or an error.
pub data Begun : Type 0 where
  awaits : ℕ → Begun
  key_reused : Begun

abbrev pub entry_key : Entry → String
entry_key e = e.key

-- `#touchEphemeral`: the entry becomes the last of the Map.
unfoldable pub touch : Entry → List Entry → List Entry
touch e es = delete (at entry_key e.key) es ++ e ∷ []

-- The loop before an entry is added.
unfoldable pub evict : ℕ → List Entry → List Entry
evict limit [] = []
evict limit (e ∷ es) =
    let rest = evict limit es in if leb limit (length (e ∷ es)) then rest else e ∷ es

abbrev pub new_entry : String → String → ℕ → Entry
new_entry key fingerprint serial = record {
  key = key;
  fingerprint = fingerprint;
  serial = serial;
  outcome = none;
  expires_at = none;
}

-- The handler starts at once.
abbrev pub started : String → String → Cache → Cache × Begun
started key fingerprint c = (
  record c {
    entries = evict c.limit c.entries ++ new_entry key fingerprint c.next_serial ∷ [];
    next_serial = suc c.next_serial;
    executed = key ∷ c.executed;
  },
  awaits c.next_serial,
)

abbrev pub existing : String → String → ℕ → Cache → Option Entry → Cache × Begun
existing key fingerprint now c none = started key fingerprint c
existing key fingerprint now c (some e) =
    if past e.expires_at now
    then started key fingerprint (record c { entries = delete (at entry_key key) c.entries })
    else if same e.fingerprint fingerprint
    then (record c { entries = touch e c.entries }, awaits e.serial)
    else (c, key_reused)

unfoldable pub begin : String → String → ℕ → Cache → Cache × Begun
unfolding evict touch
begin key fingerprint now c = existing key fingerprint now c (lookup entry_key key c.entries)

abbrev pub settled_entry : StoredOutcome → ℕ → Entry → Entry
settled_entry outcome now e = record e {
  outcome = some outcome;
  expires_at = some (now + ephemeral_result_ttl_ms);
}

abbrev pub settled : ℕ → StoredOutcome → ℕ → Cache → Option Entry → Cache
settled serial outcome now c none = c
settled serial outcome now c (some e) =
    if e.serial == serial
    then record c { entries = touch (settled_entry outcome now e) c.entries }
    else c

-- The promise of an entry is settled; its callers get the outcome, whether or not it is still kept.
unfoldable pub settle : String → ℕ → StoredOutcome → ℕ → Cache → Cache × Answer
unfolding touch unwrap_outcome
settle key serial outcome now c =
    (settled serial outcome now c (lookup entry_key key c.entries), unwrap_outcome outcome)

pub data Event : Type 0 where
  begins : String → String → ℕ → Event
  settles : String → ℕ → StoredOutcome → ℕ → Event

unfoldable pub handle : Event → Cache → Cache
handle (begins key fingerprint now) c = (begin key fingerprint now c).0
handle (settles key serial outcome now) c = (settle key serial outcome now c).0

unfoldable pub run : List Event → Cache → Cache
unfolding handle
run [] c = c
run (e ∷ es) c = run es (handle e c)
