-- ===== src/Lib.antt =====
-- Verification library of CodexEverywhere: the Agent keeps Codex threads of a host running and serves
-- them, over an encrypted Gateway, to web clients on other devices. A prompt that is delivered twice,
-- or a mutation that is run twice after a lost answer, is the failure that its design is about, so
-- the library models the code that decides whether something is done again.
--
-- Parts and files. Each file names the source that it models.
--   Table          SQL statements on a table with a text key; Table/Laws how such a table reads;
--                  Table/Maps the entries of a Map.
--   Queue          apps/agent/src/v2: repositories/queue-repository.ts (Queue/Rows for the records,
--                  Queue/Items, Queue/Claims, Queue/Outcomes and Queue/Repository/Reads for the
--                  methods) and services/queue-service.ts (Queue/Delivery for `#deliver` and
--                  `#markIndeterminate`, Queue/Service for dispatch and steer, Queue/Requests for the
--                  rest). The service reads the repository, claims a delivery in one transaction,
--                  asks app-server outside of any transaction, and settles the claim in another.
--                  Queue/Repository/History is any sequence of transactions, and of restarts that read
--                  the file. Queue/Requests is any sequence of requests to the service: a dispatch and
--                  a steer end with a claim, the request and its answer are later steps, and the Agent
--                  may stop between any two.
--   Mutation       apps/agent/src/v2: repositories/mutation-receipt-repository.ts (Mutation/Receipts)
--                  and services/mutation-middleware.ts (Mutation/Durable for `#executeDurable`,
--                  Mutation/InFlight for `#runDurable` with the calls that run at the same time and
--                  restarts of the Agent, Mutation/Ephemeral for `#runEphemeral`).
--   Interaction    apps/agent/src/v2/services/interaction-broker.ts: what app-server asks the user.
--   Lease          apps/agent/src/v2/services/thread-lease-manager.ts: a lease (Lease/Thread, with Interaction
--                  as its broker, Lease/Counts for its references and Lease/Turns for the turns that have
--                  ended; Lease/Thread/Handles for the handles on it) and the manager (Lease/Manager).
--                  The manager counts and keeps leases by number: Lease/Thread counts the disposals that
--                  it asks for, and Lease/Manager takes a disposal as a step.
--   Access         apps/agent/src/v2/services/authentication-rate-limiter.ts (Access/RateLimiter)
--                  and session-ticket-service.ts (Access/Tickets, for any hash of a token).
--   Relay          apps/relay/src/relay-server.ts (Relay for the tables, Relay/Rates, Relay/Authorizations,
--                  Relay/Register, Relay/Connect and Relay/Accept for the methods, Relay/Steps for
--                  what may happen, Relay/Bridge for a bridged tunnel). Relay/Kept lists the changes
--                  that the methods make, with what they check before: an invariant that bears each of them
--                  holds in every run.
--   Kernel         packages/kernel/src: actor.ts (Kernel/Actor) and typed-event-bus.ts (Kernel/EventBus).
--   Web            apps/web/src/v4/actors: queue-actor.ts (Web/QueueActor), composer-actor.ts
--                  (Web/ComposerActor), task-list-actor.ts (Web/TaskList), the control actor of
--                  side-chat-runtime.ts (Web/SideChat) and thread-actor.ts
--                  (Web/ThreadActor, with thread-timeline-model.ts in Web/Timeline), reducers and effect runners on the actors
--                  of Kernel/Actor.
--   Tests          the theorems at concrete inputs.
--
-- How state and operations correspond. A repository is the rows of its tables; a method is a function
-- from the tables to a result, which is the new tables and the answer, or an error. `transaction`
-- wraps it as `SqliteStateFile.transaction` of repositories/sqlite-state-file.ts does: a body that
-- throws changes nothing; where the file cannot be written the caller gets an error, and the change
-- stays in the database that is open in memory, because the reload that begins the next
-- transaction finds the known revision of the file. Whether the file can be written is an argument
-- of every transaction, so the theorems cover both cases. Where a restart matters, the state has the
-- rows that the file holds beside the open database: a transaction that is written leaves its whole
-- database there, and a restart opens what the file holds, so that what was not written is lost. A
-- write that fails after its file was renamed is not modelled.
-- Requests to app-server and events are a log, newest first; what app-server, the leases and the
-- Gateway answer is an argument. The steps of a sequence are chosen freely, so a sequence is any
-- order in which the requests, answers and restarts may come.
--
-- Numbers and texts. A time is a number of milliseconds: the source writes every time with
-- `toISOString`, whose texts are in the order of the times. Identifiers are texts. Revisions, times
-- and counts are unbounded; where the source subtracts a greater number, the model says what comes out. A JSON value is its text, and a fingerprint, which
-- the source takes with SHA-256 of canonical JSON, is the text that identifies the request.
--
-- No model runs on fuel: every loop is a recursion on a list.
--
-- Not modelled: the text of SQL and of JSON below the level of rows and fields; the encryption and
-- transports; the thread, setup, identity, side chat and administration services;
-- the pages of the web client; the timers that schedule a dispatch.
pub mod Prelude
pub mod Table
pub mod Relay
pub mod Lease
pub mod Queue
pub mod Mutation
pub mod Access
pub mod Interaction
pub mod Kernel
pub mod Web
pub mod Tests
