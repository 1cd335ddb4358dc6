-- ===== src/Management.antt =====
-- packages/ocom/application-services/src/contexts/community/member/member-management.ts, on top of
-- packages/ocom/persistence: member.repository.ts and member.read-repository.ts.
pub mod Source
pub mod Single
pub mod Accounts
pub mod Bulk
pub mod Saving
pub mod Returns
pub mod Callbacks
pub mod Effects
pub mod Written
pub mod Documents
pub mod Activated
pub mod Apart
pub mod Changes
pub mod Filling
pub mod Finding
pub mod Lookups
pub mod Steps
pub mod Invariant
pub mod Batches
pub mod Steady
pub mod Loading
pub mod Sessions
pub mod Sequences
pub mod Users
pub mod Created
pub mod Tests
pub mod BatchTests
