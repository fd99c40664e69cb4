-- ===== src/Security.antt =====
-- The security services under security/ of the commerce example.
pub mod PostQuantum
pub mod Dpop
pub mod Sessions
pub mod Manager
mod Tests
