-- ===== src/Lease.antt =====
-- apps/agent/src/v2/services/thread-lease-manager.ts: a live thread of app-server (Lease/Thread, with
-- what is kept of its ended turns in Lease/Turns) and the manager of all (Lease/Manager).
pub mod Counts
pub mod Turns
pub mod Thread
pub mod Manager
