-- ===== src/Strategies.antt =====
-- Targeting strategies: src/modules/strategies.
pub mod Rules
pub mod Legal
pub mod Service
pub mod Replacement
