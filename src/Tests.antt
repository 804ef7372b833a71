-- ===== src/Tests.antt =====
-- The theorems at concrete inputs, and runs of the models.
pub mod Queue
pub mod Mutation
pub mod Access
pub mod Relay
pub mod Interaction
pub mod Kernel
pub mod Lease
pub mod Web
pub mod Thread
pub mod TaskList
pub mod SideChat
