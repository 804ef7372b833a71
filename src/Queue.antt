-- ===== src/Queue.antt =====
-- The durable Queue: apps/agent/src/v2/repositories/queue-repository.ts (Rows,
-- Items, Claims, Outcomes, Repository) and apps/agent/src/v2/services/queue-service.ts (Delivery, Service,
-- Requests).
pub mod Rows
pub mod Items
pub mod Claims
pub mod Outcomes
pub mod Repository
pub mod Delivery
pub mod Service
pub mod Requests
