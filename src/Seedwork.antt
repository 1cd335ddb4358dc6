-- ===== src/Seedwork.antt =====
-- packages/cellix/domain-seedwork: aggregate-root.ts, domain-entity.ts and domain-event.ts.
pub mod Aggregate
