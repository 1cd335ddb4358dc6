-- ===== src/UnitOfWork.antt =====
-- packages/cellix/mongoose-seedwork/src/mongoose-seedwork: mongo-repository.ts and
-- mongo-unit-of-work.ts.
pub mod Repository
pub mod Transaction
pub mod Save
pub mod Events
pub mod Commit
pub mod Tests
