-- ===== src/Users.antt =====
-- Users, their invites and the owners of the workspace: src/modules/users/user.service.ts and
-- src/modules/auth/auth.service.ts.
pub mod Accounts
pub mod Invites
pub mod Owners
pub mod Passwords
pub mod Ownership
