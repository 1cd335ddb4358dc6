-- ===== src/Queue.antt =====
-- packages/cellix/service-queue-storage/src: the queue service, its producers and its consumers.
pub mod State
pub mod Service
pub mod Sending
pub mod Contexts
pub mod Laws
pub mod Delivery
pub mod Fields
pub mod Lifecycle
pub mod Tests
