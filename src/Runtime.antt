-- ===== src/Runtime.antt =====
-- The execution of actions by agents, actors and registries (runtime/ of the commerce example).
pub mod Registry
pub mod Actors
pub mod Declared
pub mod Mailbox
mod Tests
