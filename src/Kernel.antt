-- ===== src/Kernel.antt =====
-- packages/kernel/src: the actors that the web client keeps its state in (Actor), and the events that the
-- services of the Agent send each other (EventBus).
pub mod Actor
pub mod EventBus
