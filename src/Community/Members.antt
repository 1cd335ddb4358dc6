-- ===== src/Community/Members.antt =====
-- packages/ocom/domain/src/domain/contexts/community/member: member.ts and member-account.ts.
pub mod State
pub mod Methods
pub mod Accounts
pub mod Lifecycle
pub mod History
