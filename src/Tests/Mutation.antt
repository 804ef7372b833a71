-- ===== src/Tests/Mutation.antt =====
-- One call of an operation key, begun twice, ended and begun again; and the theorems on it.
use codex_everywhere.Prelude.{
  ◌≤◌, ◌≡◌, refl, true, false, List, [], ◌∷◌, some, text_discrete, arith,
}
use codex_everywhere.Table.{modified, find}
use codex_everywhere.Mutation.Receipts.{Invocation, success, pending_row}
use codex_everywhere.Mutation.Durable.{Circumstances, succeeded, unwrap_outcome, capture_outcome}
use codex_everywhere.Mutation.InFlight.{
  Server, Event, arrives, ends, restarts, at_once, run, run_durable, end_call,
}
use codex_everywhere.Mutation.Ephemeral
use codex_everywhere.Mutation.Ephemeral.{Cache, begin}
use codex_everywhere.Mutation.Ephemeral.Bound.{IsWithin, run-IsWithin}
use codex_everywhere.Mutation.InFlight.Once.{runs, runs-le-one}
use codex_everywhere.Mutation.InFlight.Serving.{IsServing}
use codex_everywhere.Mutation.InFlight.Running.{run-IsServing}
use codex_everywhere.Mutation.InFlight.Replay.{end-replays}

abbrev new_server : Server
new_server = record { world = record { receipts = []; file = []; executed = [] }; in_flight = [] }

new_server-IsServing : IsServing new_server
unfolding modified find
new_server-IsServing = record {
  keyed = λ k. omega arith;
  file_keyed = λ k. omega arith;
  calls_keyed = λ k. omega arith;
  carried = λ k. refl;
}

abbrev call : Invocation
call = record { operation_key = "k"; method = "queue/add"; request_fingerprint = "f" }

abbrev circumstances : Circumstances
circumstances = record {
  claim_time = 1;
  claim_durable = true;
  execution = succeeded "{}";
  complete_time = 5;
  complete_durable = true;
  mark_time = 6;
  mark_durable = true;
}

abbrev events : List Event
events =
    arrives call 1 false
    ∷ restarts 2 true
    ∷ arrives call 3 true
    ∷ arrives call 4 false
    ∷ ends "k" circumstances
    ∷ restarts 7 true
    ∷ arrives call 9 true
    ∷ []

runs-le-one_example : runs "k" (run events new_server).world.executed ≤ 1
runs-le-one_example =
    runs-le-one "k" 1 100 events new_server new_server-IsServing.keyed
      new_server-IsServing.file_keyed refl (omega arith)
      (omega arith, (tt, (omega arith, (omega arith, (omega arith, (tt, (omega arith, tt)))))))

run-IsServing_example : IsServing (run events new_server)
run-IsServing_example = run-IsServing events new_server new_server-IsServing

-- The call runs.
abbrev running : Server
running = record {
  world = record {
    receipts = pending_row call 1 ∷ [];
    file = pending_row call 1 ∷ [];
    executed = "k" ∷ [];
  };
  in_flight = call ∷ [];
}

running-IsServing : IsServing running
unfolding modified find
running-IsServing = record {
  keyed = λ k. ground arith;
  file_keyed = λ k. ground arith;
  calls_keyed = λ k. ground arith;
  carried = λ k. ground arith;
}

abbrev later : List Event
later = arrives call 8 true ∷ restarts 9 true ∷ []

end-replays_example :
    let first = end_call "k" circumstances running in
    let after = run later first.0 in
    let again = run_durable call 20 true after in
    (first.1 ≡ some (unwrap_outcome (capture_outcome circumstances.execution)))
    × ((again.1 ≡ at_once (unwrap_outcome (capture_outcome circumstances.execution)))
        × (again.0.world.executed ≡ after.world.executed))
unfolding find capture_outcome text_discrete
end-replays_example =
    end-replays running "k" call circumstances later 100 20 true running-IsServing refl refl refl
      (omega arith) (omega arith, (tt, tt)) (omega arith)

abbrev new_cache : Cache
new_cache = record { limit = 3; entries = []; next_serial = 0; executed = [] }

new_cache-IsWithin : IsWithin new_cache
new_cache-IsWithin = (omega arith, omega arith)

abbrev cache_events : List Ephemeral.Event
cache_events = Ephemeral.begins "other" "g" 2 ∷ Ephemeral.settles "k" 0 (success "{}") 5 ∷ []

run-IsWithin_example : IsWithin (Ephemeral.run cache_events new_cache)
run-IsWithin_example = run-IsWithin cache_events new_cache new_cache-IsWithin
