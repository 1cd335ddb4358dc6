-- ===== src/Community/Invitation.antt =====
-- packages/ocom/domain/src/domain/contexts/community/member: member-invitation.ts and
-- member-invitation.value-objects.ts.
pub mod State
pub mod Methods
pub mod Lifecycle
pub mod Branches
pub mod Moves
pub mod History
pub mod Create
