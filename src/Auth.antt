-- ===== src/Auth.antt =====
-- Authentication and the route guards: src/plugins/auth.ts, with the roles of
-- src/auth/constants.ts.
pub mod Guards
pub mod Session
