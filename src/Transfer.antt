-- ===== src/Transfer.antt =====
-- The transfer of flags: src/modules/transfer.
pub mod Document
pub mod Import
pub mod Apply
pub mod Project
pub mod Export
pub mod Unleash
