-- ===== src/Bootstrap.antt =====
-- apps/api/src/cellix.ts: how an application is put together, started and stopped.
pub mod State
pub mod Methods
pub mod Hooks
pub mod Phases
pub mod Invariant
pub mod Outcomes
pub mod Started
pub mod Chains
pub mod Endings
pub mod Fields
pub mod Services
pub mod Serving
pub mod Startup
pub mod Boot
pub mod Tests
