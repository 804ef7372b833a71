-- ===== src/Web.antt =====
-- apps/web/src/v4/actors: the state of the web client (QueueActor, ComposerActor, TaskList, ThreadActor), kept in actors of
-- packages/kernel/src.
pub mod QueueActor
pub mod ComposerActor
pub mod Timeline
pub mod TaskList
pub mod SideChat
pub mod ThreadActor
