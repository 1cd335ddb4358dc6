-- ===== src/Iam.antt =====
-- packages/ocom/domain/src/domain/iam: passports and the visas that they issue. A visa is its
-- `determineIf`. The roots are given by the fields that the visas read.
pub mod Permissions
pub mod Visas
pub mod Community
pub mod Others
pub mod Facts
