-- ===== src/Queue/Repository.antt =====
-- What holds of the methods of `QueueRepository` in
-- apps/agent/src/v2/repositories/queue-repository.ts, which Queue/Items, Queue/Claims and Queue/Outcomes
-- model; its reads are in Reads.
pub mod Reads
pub mod Consistent
pub mod Steps
pub mod Exclusive
pub mod Settle
pub mod Recover
pub mod History
