-- ===== src/Healing.antt =====
-- The healing of failed actions: runtime/healing-store.ts and runtime/semantic-healing.ts.
pub mod Store
pub mod Cases
pub mod Graph
pub mod Diagnosis
pub mod Run
pub mod Declared
mod Tests
