-- ===== src/Case/ServiceTicket.antt =====
-- packages/ocom/domain/src/domain/contexts/case/service-ticket/v1: the service ticket.
pub mod State
pub mod Methods
pub mod Setters
pub mod Message
pub mod Create
pub mod Commands
pub mod Transitions
pub mod Refusal
pub mod Log
mod Tests
pub mod History
