-- ===== src/Flow.antt =====
-- The choreography of events: runtime/flow-runtime.ts and runtime/event-bus.ts, over the healing of
-- Healing.Run and the agents of Runtime.Actors. A call takes the flow's state (world, store of healing
-- cases, history of the bus) and returns the next one; how long an execution took is what the clock
-- of the world advanced.
pub mod Contracts
pub mod Queue
pub mod Resume
pub mod Ended
pub mod Terminal
pub mod Completed
pub mod Kept
pub mod Returned
pub mod Resumed
mod Tests
