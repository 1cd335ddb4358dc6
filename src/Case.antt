-- ===== src/Case.antt =====
-- packages/ocom/domain/src/domain/contexts/case: service tickets and violation tickets.
pub mod Parts
pub mod Log
pub mod ServiceTicket
pub mod ViolationTicket
