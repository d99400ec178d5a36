-- ===== src/Sdk.antt =====
-- The JavaScript client: packages/sdk-js/src.
pub mod Cache
pub mod Transport
pub mod Client
