-- ===== src/Mutation/InFlight.antt =====
-- `#runDurable` of `AgentMutationMiddleware` in apps/agent/src/v2/services/mutation-middleware.ts, with
-- the calls that run at the same time, for the receipts of one principal. A call comes in, and its
-- handler ends, at any later time and in any order; a restart of the Agent loses the calls and
-- recovers the receipts that the file has. The transactions of the state file run one after another.
pub mod Once
pub mod Serving
pub mod Running
pub mod Settled
pub mod Replay
use codex_everywhere.Prelude.{
  ℕ, Bool, true, false, List, [], ◌∷◌, Option, none, some, String, same, if◌then◌else◌,
}
use codex_everywhere.Table.{delete, at, lookup}
use codex_everywhere.Mutation.Receipts.{Invocation, recover_pending, status}
use codex_everywhere.Mutation.Durable.{
  World, Answer, rejected, operation_key_reused, Circumstances, Started, executing, answers,
  start_durable, record_outcome, capture_outcome, transact,
}

-- `#inFlight`: the calls whose handlers run, by operation key, each with the promise of its answer.
pub record Server : Type 0 where
  pub world : World
  pub in_flight : List Invocation

abbrev pub call_key : Invocation → String
call_key i = i.operation_key

-- What a caller gets at once: an answer, or the promise of the call that runs.
pub data Response : Type 0 where
  joins : Response
  at_once : Answer → Response

abbrev pub started : Invocation → Server → World × Started → Server × Response
started i s (w, answers a) = (record s { world = w }, at_once a)
started i s (w, executing) = (record { world = w; in_flight = i ∷ s.in_flight }, joins)

abbrev pub admitted : Invocation → ℕ → Bool → Server → Option Invocation → Server × Response
admitted i now durable s (some running) =
    if same running.request_fingerprint i.request_fingerprint
    then (s, joins)
    else (s, at_once (rejected operation_key_reused))
admitted i now durable s none = started i s (start_durable i now durable s.world)

unfoldable pub run_durable : Invocation → ℕ → Bool → Server → Server × Response
run_durable i now durable s = admitted i now durable s (lookup call_key i.operation_key s.in_flight)

-- The handler of a call ends: its outcome is recorded and the call leaves the map (`finally`).
abbrev pub ended : String → Circumstances → Server → Option Invocation → Server × Option Answer
ended key c s none = (s, none)
ended key c s (some i) =
    let r = record_outcome i c (capture_outcome c.execution) s.world in
    (record { world = r.0; in_flight = delete (at call_key key) s.in_flight }, some r.1)

unfoldable pub end_call : String → Circumstances → Server → Server × Option Answer
unfolding record_outcome capture_outcome
end_call key c s = ended key c s (lookup call_key key s.in_flight)

pub data Event : Type 0 where
  arrives : Invocation → ℕ → Bool → Event
  ends : String → Circumstances → Event
  asks : String → ℕ → Bool → Event
  restarts : ℕ → Bool → Event

-- `SqliteStateFile.open` reads the file.
abbrev pub reopened : World → World
reopened w = record w { receipts = w.file }

unfoldable pub handle : Event → Server → Server
unfolding run_durable end_call
handle (arrives i now durable) s = (run_durable i now durable s).0
handle (ends key c) s = (end_call key c s).0
handle (asks key now durable) s = record s {
  world = transact durable (status key now s.world.receipts) s.world;
}
handle (restarts now durable) s = record {
  world = transact durable (recover_pending now s.world.file) (reopened s.world);
  in_flight = [];
}

unfoldable pub run : List Event → Server → Server
unfolding handle
run [] s = s
run (e ∷ es) s = run es (handle e s)
