-- ===== src/Flags.antt =====
-- Feature flags: src/modules/flags/flag.service.ts.
pub mod Create
pub mod Toggle
