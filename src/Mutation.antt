-- ===== src/Mutation.antt =====
-- Idempotent mutations: apps/agent/src/v2/repositories/mutation-receipt-repository.ts (Receipts) and
-- apps/agent/src/v2/services/mutation-middleware.ts (Durable, InFlight, Ephemeral).
pub mod Receipts
pub mod Durable
pub mod InFlight
pub mod Ephemeral
