-- ===== src/Client.antt =====
-- The evaluation endpoints behind a client key: src/modules/client/client.service.ts.
pub mod State
pub mod Answers
