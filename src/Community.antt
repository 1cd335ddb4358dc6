-- ===== src/Community.antt =====
-- packages/ocom/domain/src/domain/contexts/community: member invitations, members and the member
-- search.
pub mod Email
pub mod Invitation
pub mod Members
pub mod Profile
pub mod Search
pub mod Tests
pub mod MemberTests
