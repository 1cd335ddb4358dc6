-- ===== src/Case/ViolationTicket.antt =====
-- packages/ocom/domain/src/domain/contexts/case/violation-ticket/v1: the violation ticket.
pub mod State
pub mod Items
pub mod Methods
pub mod Setters
pub mod Create
pub mod Commands
pub mod Transitions
pub mod Additions
pub mod Validity
pub mod Refusal
mod Tests
